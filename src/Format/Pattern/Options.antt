-- ===== src/Format/Pattern/Options.antt =====
-- PatternCompiler::compile: width, alignment and truncation are read back from their text.
use log_it_cpp.Base.{
  and_parts, ℕ, zero, suc, ◌+◌, ◌*◌, ◌-◌, ◌/◌, ◌%◌, ◌<◌, ◌≡◌, refl, sym, ap, ◌∙◌, Bool, true, false,
  ◌&&◌, not, [], ◌∷◌, ◌++◌, append_assoc, append-nil, length, length-append, ltb, ◌==◌, if_elim,
  all, Bool-cases, inl, inr, arith,
}
use log_it_cpp.Base.Decimal.{decimal, length-decimal, all-append}
use log_it_cpp.Record.{Bytes}
use log_it_cpp.Format.Pattern.{Flags, no_flags, is_flag, add_flag, starts, read_flags}
use log_it_cpp.Format.Pattern.Print.{when, print_width, print_options, print_flags, is_plain}

abbrev pub add_flags : Flags → Bytes → Flags
add_flags f [] = f
add_flags f (c ∷ t) = add_flags (add_flag f c) t

-- What `read_flags` stops at, with no truncation.
abbrev pub ends_flags : Bytes → Bool
ends_flags [] = true
ends_flags (c ∷ t) = not (is_flag c)

add_flags-append :
    (f : Flags) (xs ys : Bytes) → add_flags f (xs ++ ys) ≡ add_flags (add_flags f xs) ys
add_flags-append f [] ys = refl
add_flags-append f (c ∷ xs) ys = add_flags-append (add_flag f c) xs ys

-- A flag is not a '!'.
starts-flags :
    (xs rest : Bytes)
    → all is_flag xs ≡ true
    → starts b'!' rest ≡ false
    → starts b'!' (xs ++ rest) ≡ false
starts-flags [] rest h k = k
starts-flags (c ∷ xs) rest h k = ground (arith, h)

read_flags-stop :
    (f : Flags) (rest : Bytes) → ends_flags rest ≡ true → read_flags f rest ≡ (f, rest)
unfolding read_flags
read_flags-stop f [] h = refl
read_flags-stop f (c ∷ t) h = rw h refl

read_flags-untruncated :
    (f : Flags) (xs rest : Bytes)
    → all is_flag xs ≡ true
    → ends_flags rest ≡ true
    → starts b'!' rest ≡ false
    → read_flags f (xs ++ rest) ≡ (add_flags f xs, rest)
unfolding read_flags
read_flags-untruncated f [] rest h k l = read_flags-stop f rest k
read_flags-untruncated f (c ∷ xs) rest h k l =
    let o = and_parts (is_flag c) (all is_flag xs) h in
    rw (o.0, starts-flags xs rest (o.1) l) (read_flags-untruncated (add_flag f c) xs rest (o.1) k l)

read_flags-truncated :
    (f : Flags) (c : ℕ) (xs rest : Bytes)
    → all is_flag (c ∷ xs) ≡ true
    → read_flags f ((c ∷ xs) ++ b'!' ∷ rest)
      ≡ (record (add_flags f (c ∷ xs)) { truncate = true }, rest)
unfolding read_flags
read_flags-truncated f c [] rest h = let o = and_parts (is_flag c) true h in rw (o.0) refl
read_flags-truncated f c (d ∷ xs) rest h =
    let o = and_parts (is_flag c) (all is_flag (d ∷ xs)) h in
    let p = and_parts (is_flag d) (all is_flag xs) (o.1) in
    let e : (d == b'!') ≡ false = ground (arith, p.0) in
    rw (o.0, e) (read_flags-truncated (add_flag f c) d xs rest (o.1))

add_flag-digit :
    (f : Flags) (d : ℕ) → d < 10 → add_flag f (48 + d) ≡ record f { width = f.width * 10 + d }
add_flag-digit f d h =
    let a : ((48 + d) == b'-') ≡ false = ground (arith, h) in
    let b : ((48 + d) == b'=') ≡ false = ground (arith, h) in
    let e : f.width * 10 + (48 + d - 48) ≡ f.width * 10 + d = omega arith in
    rw (a, b) (ap (λ (w : ℕ). record f { width = w }) e)

add_flags-decimal :
    (rounds n : ℕ) (f : Flags)
    → n < rounds
    → f.width ≡ 0
    → add_flags f (decimal rounds n) ≡ record f { width = n }
unfolding decimal
add_flags-decimal zero n f h w = absurd (omega (arith, h))
add_flags-decimal (suc rounds) n f h w =
    if_elim (λ xs. add_flags f xs ≡ record f { width = n }) (ltb n 10) ((48 + n) ∷ [])
      (decimal rounds (n / 10) ++ (48 + n % 10) ∷ [])
      (λ i.
        add_flag-digit f n (ground (arith, i))
        ∙ ap (λ (v : ℕ). record f { width = v }) (omega (arith, w)))
      (λ i.
        add_flags-append f (decimal rounds (n / 10)) ((48 + n % 10) ∷ [])
        ∙ ap (λ (g : Flags). add_flag g (48 + n % 10))
            (add_flags-decimal rounds (n / 10) f (ground (arith, h, i)) w)
        ∙ add_flag-digit (record f { width = n / 10 }) (n % 10) (omega arith)
        ∙ ap (λ (v : ℕ). record f { width = v }) (omega arith))

flags-decimal : (rounds n : ℕ) → all is_flag (decimal rounds n) ≡ true
unfolding decimal
flags-decimal zero n = refl
flags-decimal (suc rounds) n =
    if_elim (λ xs. all is_flag xs ≡ true) (ltb n 10) ((48 + n) ∷ [])
      (decimal rounds (n / 10) ++ (48 + n % 10) ∷ []) (λ i. ground (arith, i))
      (λ i.
        all-append is_flag (decimal rounds (n / 10)) _ (flags-decimal rounds (n / 10))
          (ground arith))

add_flags-width :
    (f g : Flags) → g.width ≡ 0 → add_flags g (print_width f) ≡ record g { width = f.width }
add_flags-width f g h =
    if_elim (λ xs. add_flags g xs ≡ record g { width = f.width }) (f.width == 0 && not f.truncate)
      [] (decimal (suc f.width) f.width)
      (λ i. ap (λ (v : ℕ). record g { width = v }) (ground (arith, h, i)))
      (λ i. add_flags-decimal (suc f.width) f.width g (omega arith) h)

add_flags-options :
    (f : Flags) → add_flags no_flags (print_options f) ≡ record f { truncate = false }
add_flags-options f =
    add_both (f.left_align) (f.center_align) (print_width f)
    ∙ add_flags-width f (record f { width = 0; truncate = false }) refl
  where
    add_both :
        (l c : Bool) (xs : Bytes)
        → add_flags no_flags (when l b'-' ++ (when c b'=' ++ xs))
          ≡ add_flags (record { width = 0; left_align = l; center_align = c; truncate = false }) xs
    add_both false false xs = refl
    add_both false true xs = refl
    add_both true false xs = refl
    add_both true true xs = refl

flags-options : (f : Flags) → all is_flag (print_options f) ≡ true
flags-options f = flags_both (f.left_align) (f.center_align) (print_width f) (
    if_elim (λ xs. all is_flag xs ≡ true) (f.width == 0 && not f.truncate) []
      (decimal (suc f.width) f.width) (λ i. refl) (λ i. flags-decimal (suc f.width) f.width))
  where
    flags_both :
        (l c : Bool) (xs : Bytes)
        → all is_flag xs ≡ true
        → all is_flag (when l b'-' ++ (when c b'=' ++ xs)) ≡ true
    flags_both false false xs h = h
    flags_both false true xs h = h
    flags_both true false xs h = h
    flags_both true true xs h = h

length-options : (f : Flags) → f.truncate ≡ true → 0 < length (print_options f)
length-options f h =
    let d = length-decimal f.width f.width in
    let a = length-append (when f.left_align b'-') (when f.center_align b'=' ++ print_width f) in
    let b = length-append (when f.center_align b'=') (print_width f) in
    let e : length (print_width f) ≡ length (decimal (suc f.width) f.width) = ground (arith, h) in
    omega (arith, a, b, e, d)

read_flags-nonempty :
    (f : Flags) (xs rest : Bytes)
    → 0 < length xs
    → all is_flag xs ≡ true
    → read_flags f (xs ++ b'!' ∷ rest) ≡ (record (add_flags f xs) { truncate = true }, rest)
read_flags-nonempty f [] rest h k = absurd (omega (arith, h))
read_flags-nonempty f (c ∷ xs) rest h k = read_flags-truncated f c xs rest k

-- Flags without truncation, before a text that is not read as a flag or as the '!' after one.
read_flags-options :
    (f : Flags) (rest : Bytes)
    → f.truncate ≡ false
    → ends_flags rest ≡ true
    → (starts b'!' rest && not (is_plain f)) ≡ false
    → read_flags no_flags (print_options f ++ rest) ≡ (f, rest)
read_flags-options f rest t h k = elim (Bool-cases (starts b'!' rest)) [
  | inl e ↦
      let p : is_plain f ≡ true = ground (arith, k, e) in
      let n : print_options f ≡ [] = no_options f p t in
      let g : record f { truncate = false } ≡ f =
        ap (λ (b : Bool). record f { truncate = b }) (sym t) in
      ap (λ xs. read_flags no_flags (xs ++ rest)) n
      ∙ read_flags-stop no_flags rest h
      ∙ ap (λ (i : Flags). (i, rest)) (ap (add_flags no_flags) (sym n) ∙ add_flags-options f ∙ g)
  | inr e ↦
      let g : record f { truncate = false } ≡ f =
        ap (λ (b : Bool). record f { truncate = b }) (sym t) in
      read_flags-untruncated no_flags (print_options f) rest (flags-options f) h e
      ∙ ap (λ (i : Flags). (i, rest)) (add_flags-options f ∙ g)
]
  where
    no_options : (f : Flags) → is_plain f ≡ true → f.truncate ≡ false → print_options f ≡ []
    no_options f p t = ground (arith, p, t)

-- The flags are read back from their text, and the text after them is left.
pub read_flags-print_flags :
    (f : Flags) (rest : Bytes)
    → ends_flags rest ≡ true
    → (starts b'!' rest && not (is_plain f) && not f.truncate) ≡ false
    → read_flags no_flags (print_flags f ++ rest) ≡ (f, rest)
read_flags-print_flags f rest h k = elim (Bool-cases f.truncate) [
  | inl t ↦
      let g : record (record f { truncate = false }) { truncate = true } ≡ f =
        ap (λ (b : Bool). record f { truncate = b }) (sym t) in
      ap (λ b. read_flags no_flags ((print_options f ++ when b b'!') ++ rest)) t
      ∙ ap (read_flags no_flags) (append_assoc (print_options f) (b'!' ∷ []) rest)
      ∙ read_flags-nonempty no_flags (print_options f) rest (length-options f t) (flags-options f)
      ∙ ap (λ (i : Flags). (record i { truncate = true }, rest)) (add_flags-options f)
      ∙ ap (λ (i : Flags). (i, rest)) g
  | inr t ↦
      ap (λ b. read_flags no_flags ((print_options f ++ when b b'!') ++ rest)) t
      ∙ ap (λ xs. read_flags no_flags (xs ++ rest)) (append-nil (print_options f))
      ∙ read_flags-options f rest t h (ground (arith, k, t))
]
