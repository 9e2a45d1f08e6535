-- ===== src/Format/Width.antt =====
-- PatternCompiler.hpp: how wide a field is.
use log_it_cpp.Base.{
  ℕ, zero, suc, ◌+◌, ◌-◌, ◌*◌, ◌/◌, ◌≡◌, ◌≤◌, ◌<◌, refl, Bool, true, ◌&&◌, ◌++◌, ltb, leb, leb→le,
  ltb→lt, if◌then◌else◌, if_elim, length, take, drop, replicate, min, arith, length-append,
  length-take, length-drop,
}
use log_it_cpp.Record.{Bytes}
use log_it_cpp.Format.{
  widen, placeholder, truncate_middle, truncate_text, Alignment, left, center, right, spaces, pad,
  align, write_field, remove_ansi_escape_codes,
}

length-replicate : (n : ℕ) (x : ℕ) → length (replicate n x) ≡ n
length-replicate zero x = refl
length-replicate (suc n) x = omega (arith, length-replicate n x)

both_lt : (a b c d : ℕ) → (ltb a b && ltb c d) ≡ true → (a < b) × (c < d)
both_lt a b c d h = (ground (arith, h), ground (arith, h))

-- With enough rounds the loop stops because the line is wide enough, or nothing is left to add.
pub widen_lem :
    (fuel width keep_end line_size : ℕ)
    → width ≤ line_size + fuel
    → width ≤ line_size + keep_end
    → widen fuel width keep_end line_size + (width - line_size) ≡ keep_end
unfolding widen
widen_lem zero width k l h e = omega (arith, h)
widen_lem (suc fuel) width k l h e =
    if_elim (λ n. n + (width - l) ≡ k) (ltb l width && ltb 0 k) (widen fuel width (k - 1) (l + 1)) k
      (λ go.
        let r = both_lt l width 0 k go in
        omega (
          arith,
          r.0,
          r.1,
          widen_lem fuel width (k - 1) (l + 1) (omega (arith, h)) (omega (arith, r.0, r.1, e)),
        ))
      (λ stop. ground (arith, stop))

middle_width :
    (width : ℕ) (text : Bytes)
    → width < length text
    → 3 < width
    → length (
        take ((width - 3) / 2) text
        ++ placeholder
        ++ drop
            (widen width width (length text - (width - 3) / 2) (2 * ((width - 3) / 2) + 3))
            text)
      ≡ width
middle_width width text h k =
    let keep = (width - 3) / 2 in
    let stop = widen width width (length text - keep) (2 * keep + 3) in
    omega (
      arith,
      length-append (take keep text ++ placeholder) (drop stop text),
      length-append (take keep text) placeholder,
      length-take keep text,
      length-drop stop text,
      widen_lem width width (length text - keep) (2 * keep + 3) (omega arith) (omega arith),
    )

length-truncate_middle :
    (width : ℕ) (text : Bytes) → width < length text → length (truncate_middle width text) ≡ width
unfolding truncate_middle
length-truncate_middle width text h =
    if_elim (λ t. length t ≡ width) (leb width 3) (take width placeholder)
      (let keep = (width - 3) / 2 in
        take keep text
        ++ placeholder
        ++ drop (widen width width (length text - keep) (2 * keep + 3)) text)
      (λ small. omega (arith, length-take width placeholder, leb→le width 3 small))
      (λ wide. middle_width width text h (ground (arith, wide)))

length-truncate_text :
    (is_name : Bool) (width : ℕ) (text : Bytes)
    → length (truncate_text true is_name width text) ≡ min width (length text)
unfolding truncate_text
length-truncate_text is_name width text =
    if_elim (λ t. length t ≡ min width (length text)) (ltb width (length text))
      (if is_name then truncate_middle width text else take width text) text
      (λ over.
        if_elim (λ t. length t ≡ min width (length text)) is_name (truncate_middle width text)
          (take width text)
          (λ n. omega (arith, length-truncate_middle width text (ltb→lt _ _ over), ltb→lt _ _ over))
          (λ n. length-take width text))
      (λ fits. ground (arith, fits))

length-pad :
    (a : Alignment) (width : ℕ) (text : Bytes)
    → length text < width
    → length (pad a width text) ≡ width
unfolding pad
length-pad left width text h = omega (
  arith,
  length-append text (spaces (width - length text)),
  length-replicate (width - length text) 32,
)
length-pad right width text h = omega (
  arith,
  length-append (spaces (width - length text)) text,
  length-replicate (width - length text) 32,
)
length-pad center width text h =
    let p = (width - length text) / 2 in
    omega (
      arith,
      length-append (spaces p ++ text) (spaces (width - p - length text)),
      length-append (spaces p) text,
      length-replicate p 32,
      length-replicate (width - p - length text) 32,
    )

length-align :
    (a : Alignment) (width : ℕ) (text : Bytes)
    → length text ≤ width
    → length (align a width text) ≡ width
unfolding align
length-align a width text h =
    if_elim (λ t. length t ≡ width) (ltb 0 width && ltb (length text) width) (pad a width text) text
      (λ go. length-pad a width text (ground (arith, go))) (λ stop. ground (arith, stop))

-- A truncated field is exactly as wide as the pattern says, for every text, type and alignment,
-- with or without escape codes to strip.
pub length-write_field :
    (strip_ansi is_name : Bool) (a : Alignment) (width : ℕ) (text : Bytes)
    → length (write_field strip_ansi true is_name a width text) ≡ width
unfolding write_field
length-write_field strip_ansi is_name a width text =
    let plain = if strip_ansi then remove_ansi_escape_codes text else text in
    length-align a width (truncate_text true is_name width plain)
      (omega (arith, length-truncate_text is_name width plain))
