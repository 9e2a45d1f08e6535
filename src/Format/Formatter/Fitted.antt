-- ===== src/Format/Formatter/Fitted.antt =====
-- SimpleLogFormatter: a field is cut and filled as its flags say.
use log_it_cpp.Base.{
  ℕ, ◌+◌, ◌-◌, ◌*◌, ◌/◌, ◌≡◌, ◌<◌, refl, sym, ap, ◌∙◌, Bool, true, false, ◌&&◌, [], ◌∷◌, ◌++◌,
  append-nil, ltb, leb, ltb→lt, if◌then◌else◌, length, take, drop, replicate, inl, inr, Bool-cases,
  arith,
}
use log_it_cpp.Record.{Bytes}
use log_it_cpp.Format.{
  widen, truncate_middle, truncate_text, left, center, right, pad, align, write_field,
  remove_ansi_escape_codes,
}
use log_it_cpp.Format.Width.{widen_lem}
use log_it_cpp.Format.Pattern.{FormatType, Flags}
use log_it_cpp.Format.Fields.{is_name, alignment_of}
use log_it_cpp.Format.Formatter.Parts.{middle_cut, cut, filled, holds_name, fitted}

truncate_middle-middle_cut :
    (width : ℕ) (text : Bytes)
    → width < length text
    → truncate_middle width text ≡ middle_cut width text
unfolding truncate_middle
truncate_middle-middle_cut width text h =
    let dots : Bytes = b'.' ∷ b'.' ∷ b'.' ∷ [] in
    let front = (width - 3) / 2 in
    elim (Bool-cases (leb width 3)) [
      | inl e ↦ rw e
      | inr e ↦
          let wide : 3 < width = ground (arith, e) in
          let ends : widen width width (length text - front) (2 * front + 3)
              ≡ length text - (width - 3 - front) =
            omega (
              arith,
              wide,
              widen_lem width width (length text - front) (2 * front + 3) (omega arith)
                  (omega arith),
            ) in
          rw e (ap (λ n. take front text ++ dots ++ drop n text) ends)
    ]

truncate_text-cut :
    (f : Flags) (name : Bool) (text : Bytes)
    → truncate_text f.truncate name f.width text ≡ cut f name text
unfolding truncate_text
truncate_text-cut f name text = go f.truncate name
  where
    go :
        (truncate name : Bool)
        → (if truncate && ltb f.width (length text)
            then if name then truncate_middle f.width text else take f.width text
            else text)
          ≡ (if truncate && ltb f.width (length text)
              then if name then middle_cut f.width text else take f.width text
              else text)
    go false name = refl
    go true false = refl
    go true true = elim (Bool-cases (ltb f.width (length text))) [
      | inl e ↦ rw e (truncate_middle-middle_cut f.width text (ltb→lt _ _ e))
      | inr e ↦ rw e
    ]

halves : (width size : ℕ) → width - (width - size) / 2 - size ≡ width - size - (width - size) / 2
halves width size = omega arith

is_name-holds_name : (type_ : FormatType) → is_name type_ ≡ holds_name type_
is_name-holds_name type_ = ground arith

align-filled : (f : Flags) (text : Bytes) → align (alignment_of f) f.width text ≡ filled f text
unfolding align pad
align-filled f text = go f.left_align f.center_align
  where
    none_missing : (ltb 0 f.width && ltb (length text) f.width) ≡ false → 0 ≡ f.width - length text
    none_missing h = ground (arith, h)

    go :
        (l c : Bool)
        → align (if l then left else if c then center else right) f.width text ≡ (
            let missing = f.width - length text in
            if l
            then text ++ replicate missing b' '
            else if c
            then replicate (missing / 2) b' ' ++ text ++ replicate (missing - missing / 2) b' '
            else replicate missing b' ' ++ text)
    go true c = elim (Bool-cases (ltb 0 f.width && ltb (length text) f.width)) [
      | inl h ↦ rw h
      | inr h ↦ rw h (sym (append-nil text) ∙ ap (λ n. text ++ replicate n b' ') (none_missing h))
    ]
    go false true = elim (Bool-cases (ltb 0 f.width && ltb (length text) f.width)) [
      | inl h ↦ rw h (
          ap (λ n. replicate ((f.width - length text) / 2) b' ' ++ text ++ replicate n b' ')
            (halves f.width (length text)))
      | inr h ↦ rw h (
          sym (append-nil text)
          ∙ ap (λ n. replicate (n / 2) b' ' ++ text ++ replicate (n - n / 2) b' ') (none_missing h))
    ]
    go false false = elim (Bool-cases (ltb 0 f.width && ltb (length text) f.width)) [
      | inl h ↦ rw h
      | inr h ↦ rw h (ap (λ n. replicate n b' ' ++ text) (none_missing h))
    ]

pub write_field-fitted :
    (strip : Bool) (f : Flags) (type_ : FormatType) (text : Bytes)
    → write_field strip f.truncate (is_name type_) (alignment_of f) f.width text
      ≡ fitted strip f (holds_name type_) text
unfolding write_field
write_field-fitted strip f type_ text =
    let plain = if strip then remove_ansi_escape_codes text else text in
    ap (λ name. align (alignment_of f) f.width (truncate_text f.truncate name f.width plain))
      (is_name-holds_name type_)
    ∙ ap (align (alignment_of f) f.width) (truncate_text-cut f (holds_name type_) plain)
    ∙ align-filled f (cut f (holds_name type_) plain)

pub write_field_key-fitted :
    (strip : Bool) (f : Flags) (text : Bytes)
    → write_field strip f.truncate false (alignment_of f) f.width text ≡ fitted strip f false text
unfolding write_field
write_field_key-fitted strip f text =
    let plain = if strip then remove_ansi_escape_codes text else text in
    ap (align (alignment_of f) f.width) (truncate_text-cut f false plain)
    ∙ align-filled f (cut f false plain)
