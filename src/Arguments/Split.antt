-- ===== src/Arguments/Split.antt =====
-- utils/argument_utils.hpp: names joined by commas are taken apart.
use mathlib.Core.List.{reverse-cons, reverse-append, reverse-reverse}
use log_it_cpp.Base.{
  ℕ, suc, ◌+◌, ◌-◌, ◌<◌, ◌≡◌, refl, sym, ap, ap₂, ◌∙◌, Bool, true, false, not, ◌&&◌, ◌||◌, some,
  List, [], ◌∷◌, ◌++◌, append_assoc, append-nil, reverse, ltb, ◌==◌, if◌then◌else◌, length,
  length-append, length-reverse, and_parts, is_not, Bool-cases, inl, inr, arith,
}
use log_it_cpp.Base.Ints.{pos, negsuc, ◌+ℤ◌, +ℤ_parts, eq_of_parts}
use log_it_cpp.Record.{Bytes}
use log_it_cpp.Format.Values.{comma}
use log_it_cpp.Format.Fields.{joined_by}
use log_it_cpp.Arguments.{
  is_closing_template, skip_quoted, trim_start, nonempty, trimmed, put_first, and_then,
  new_parentheses, new_angles, is_cut, after_quoted, split_loop, split_arguments,
}

abbrev pub is_quote : ℕ → Bool
is_quote c = c == b'"' || c == b'\''

-- The text from its end on, at a depth of parentheses: they match, a comma stands inside them, and
-- there are no quotes and angle brackets.
abbrev pub depth_after : ℕ → ℕ → ℕ
depth_after c depth = if c == b')' then depth + 1 else if c == b'(' then depth - 1 else depth

abbrev pub is_allowed : ℕ → ℕ → Bool
is_allowed c depth =
    not (is_quote c || c == b'<' || c == b'>')
    && (if c == b'(' || c == b',' then ltb 0 depth else true)

abbrev pub is_balanced : ℕ → Bytes → Bool
is_balanced depth [] = depth == 0
is_balanced depth (c ∷ t) = is_allowed c depth && is_balanced (depth_after c depth) t

abbrev pub starts_inked : Bytes → Bool
starts_inked [] = false
starts_inked (c ∷ t) = not (c == b' ')

-- A name with no space at its ends.
abbrev pub is_argument : Bytes → Bool
is_argument name =
    starts_inked name && (starts_inked (reverse name) && is_balanced 0 (reverse name))

skip_quoted-none :
    (c : ℕ) (t seen : Bytes) → is_quote c ≡ false → skip_quoted (c ∷ t) seen ≡ (c ∷ t, seen)
unfolding skip_quoted
skip_quoted-none c [] seen h = refl
skip_quoted-none c (d ∷ t) seen h = rw h refl

trim_start-inked : (t : Bytes) → starts_inked t ≡ true → trim_start t ≡ t
unfolding trim_start
trim_start-inked [] h = refl
trim_start-inked (c ∷ t) h = rw (is_not (c == b' ') h) refl

more_parentheses : (n : ℕ) → pos n +ℤ pos 1 ≡ pos (n + 1)
more_parentheses n =
    eq_of_parts (pos n +ℤ pos 1) (pos (n + 1)) (omega (arith, +ℤ_parts (pos n) (pos 1)))

fewer_parentheses : (n : ℕ) → 0 < n → pos n +ℤ negsuc 0 ≡ pos (n - 1)
fewer_parentheses n h =
    eq_of_parts (pos n +ℤ negsuc 0) (pos (n - 1)) (omega (arith, +ℤ_parts (pos n) (negsuc 0), h))

-- A round for each byte.
abbrev rounds_of : Bytes → ℕ → ℕ
rounds_of [] fuel = fuel
rounds_of (c ∷ t) fuel = suc (rounds_of t fuel)

split_loop-byte :
    (fuel c : ℕ) (t seen : Bytes) (depth next : ℕ) (result : List Bytes)
    → is_quote c ≡ false
    → (c == b'<') ≡ false
    → (c == b'>') ≡ false
    → is_cut c (pos depth) 0 ≡ false
    → new_parentheses c (pos depth) ≡ pos next
    → split_loop (suc fuel) (c ∷ t) seen (pos depth) 0 result
      ≡ split_loop fuel t (c ∷ seen) (pos next) 0 result
unfolding split_loop after_quoted is_closing_template
split_loop-byte fuel c t seen depth next result q l g k p =
    ap (λ r. after_quoted (split_loop fuel) r (pos depth) 0 result) (skip_quoted-none c t seen q)
    ∙ rw k (ap₂ (λ z n. split_loop fuel t (c ∷ seen) z n result) p no_angles)
  where
    no_angles : new_angles c seen 0 ≡ 0
    no_angles = ground (arith, l, g)

new_parentheses_lem :
    (c depth : ℕ)
    → is_allowed c depth ≡ true
    → new_parentheses c (pos depth) ≡ pos (depth_after c depth)
new_parentheses_lem c depth h = elim (Bool-cases (c == b')')) [
  | inl a ↦ rw a (more_parentheses depth)
  | inr a ↦ elim (Bool-cases (c == b'(')) [
    | inl d ↦ let i : 0 < depth = ground (arith, h, d) in rw (a, d) (fewer_parentheses depth i)
    | inr d ↦ rw (a, d) refl
  ]
]

-- A name is read from its end on.
split_loop-name :
    (xs : Bytes) (fuel : ℕ) (rest seen : Bytes) (depth : ℕ) (result : List Bytes)
    → is_balanced depth xs ≡ true
    → split_loop (rounds_of xs fuel) (xs ++ rest) seen (pos depth) 0 result
      ≡ split_loop fuel rest (reverse xs ++ seen) (pos 0) 0 result
split_loop-name [] fuel rest seen depth result h =
    ap (λ n. split_loop fuel rest seen (pos n) 0 result) (ground (arith, h))
split_loop-name (c ∷ xs) fuel rest seen depth result h =
    let p = and_parts (is_allowed c depth) (is_balanced (depth_after c depth) xs) h in
    split_loop-byte (rounds_of xs fuel) c (xs ++ rest) seen depth (depth_after c depth) result
      (ground (arith, p.0)) (ground (arith, p.0)) (ground (arith, p.0)) (ground (arith, p.0))
      (new_parentheses_lem c depth p.0)
    ∙ split_loop-name xs fuel rest (c ∷ seen) (depth_after c depth) result p.1
    ∙ ap (λ s. split_loop fuel rest s (pos 0) 0 result)
        (sym (append_assoc (reverse xs) (c ∷ []) seen)
          ∙ ap (λ s. s ++ seen) (sym (reverse-cons c xs)))

trimmed-name :
    (name : Bytes)
    → starts_inked name ≡ true
    → starts_inked (reverse name) ≡ true
    → trimmed name ≡ some name
unfolding trimmed
trimmed-name name h k =
    ap (λ t. nonempty (reverse (trim_start (reverse t)))) (trim_start-inked name h)
    ∙ ap (λ t. nonempty (reverse t)) (trim_start-inked (reverse name) k)
    ∙ ap nonempty (reverse-reverse name)
    ∙ inked name h
  where
    inked : (t : Bytes) → starts_inked t ≡ true → nonempty t ≡ some t
    inked [] h = cc
    inked (c ∷ t) h = refl

trimmed-space : (name : Bytes) → trimmed (b' ' ∷ name) ≡ trimmed name
unfolding trimmed trim_start
trimmed-space name = refl

abbrev are_arguments : List Bytes → Bool
are_arguments [] = true
are_arguments (name ∷ names) = is_argument name && are_arguments names

-- The rounds of the names but the first, and of the first.
abbrev rounds_all : Bytes → List Bytes → ℕ → ℕ
rounds_all name [] fuel = rounds_of (reverse name) fuel
rounds_all name (next ∷ names) fuel =
    rounds_all next names (suc (suc (rounds_of (reverse name) fuel)))

reverse-joined :
    (name next : Bytes) (names : List Bytes) (rest : Bytes)
    → reverse (joined_by comma (name ∷ next ∷ names)) ++ rest
      ≡ reverse (joined_by comma (next ∷ names)) ++ b' ' ∷ b',' ∷ (reverse name ++ rest)
reverse-joined name next names rest =
    let tail = joined_by comma (next ∷ names) in
    ap (λ t. t ++ rest)
      (reverse-append name (comma ++ tail)
        ∙ ap (λ t. t ++ reverse name) (reverse-append comma tail)
        ∙ append_assoc (reverse tail) (reverse comma) (reverse name))
    ∙ append_assoc (reverse tail) (b' ' ∷ b',' ∷ reverse name) rest

-- At a comma outside parentheses the name is cut off, with the space before it.
split_loop-comma :
    (fuel : ℕ) (t name : Bytes) (result : List Bytes)
    → is_argument name ≡ true
    → split_loop (suc fuel) (b',' ∷ t) (b' ' ∷ name) (pos 0) 0 result
      ≡ split_loop fuel t [] (pos 0) 0 (name ∷ result)
unfolding split_loop after_quoted
split_loop-comma fuel t name result h =
    let a = and_parts (starts_inked name) _ h in
    let b = and_parts (starts_inked (reverse name)) _ a.1 in
    ap (λ r. after_quoted (split_loop fuel) r (pos 0) 0 result)
      (skip_quoted-none b',' t (b' ' ∷ name) refl)
    ∙ ap (λ o. and_then (put_first o result) (split_loop fuel t [] (pos 0) 0))
        (trimmed-space name ∙ trimmed-name name a.0 b.0)

split_loop-end :
    (name : Bytes) (result : List Bytes)
    → is_argument name ≡ true
    → split_loop 1 [] name (pos 0) 0 result ≡ some (name ∷ result)
unfolding split_loop after_quoted skip_quoted
split_loop-end name result h =
    let a = and_parts (starts_inked name) _ h in
    let b = and_parts (starts_inked (reverse name)) _ a.1 in
    ap (λ o. put_first o result) (trimmed-name name a.0 b.0)

-- The text of at least one name.
nonempty_text :
    (name : Bytes) (names : List Bytes)
    → starts_inked name ≡ true
    → 0 < length (joined_by comma (name ∷ names))
nonempty_text [] names h = cc
nonempty_text (c ∷ name) [] h = omega arith
nonempty_text (c ∷ name) (next ∷ names) h = omega arith

split_all :
    (t : Bytes)
    → 0 < length t
    → split_arguments t ≡ split_loop (suc (length t)) (reverse t) [] (pos 0) 0 []
unfolding split_arguments
split_all [] h = absurd (omega (arith, h))
split_all (c ∷ t) h = refl

-- All names but the first are cut off, and the first has been read.
split_loop-names :
    (name : Bytes) (names : List Bytes) (fuel : ℕ) (rest : Bytes) (result : List Bytes)
    → is_argument name ≡ true
    → are_arguments names ≡ true
    → split_loop
        (rounds_all name names fuel)
        (reverse (joined_by comma (name ∷ names)) ++ rest)
        []
        (pos 0)
        0
        result
      ≡ split_loop fuel rest name (pos 0) 0 (names ++ result)
split_loop-names name [] fuel rest result h k =
    let a = and_parts (starts_inked name) _ h in
    let b = and_parts (starts_inked (reverse name)) _ a.1 in
    split_loop-name (reverse name) fuel rest [] 0 result b.1
    ∙ ap (λ s. split_loop fuel rest s (pos 0) 0 result)
        (append-nil (reverse (reverse name)) ∙ reverse-reverse name)
split_loop-names name (next ∷ names) fuel rest result h k =
    let a = and_parts (starts_inked name) _ h in
    let b = and_parts (starts_inked (reverse name)) _ a.1 in
    let p = and_parts (is_argument next) (are_arguments names) k in
    let after = reverse name ++ rest in
    let rounds = rounds_of (reverse name) fuel in
    ap (λ t. split_loop (rounds_all next names (suc (suc rounds))) t [] (pos 0) 0 result)
      (reverse-joined name next names rest)
    ∙ split_loop-names next names (suc (suc rounds)) (b' ' ∷ b',' ∷ after) result p.0 p.1
    ∙ split_loop-byte (suc rounds) b' ' (b',' ∷ after) next 0 0 (names ++ result) refl refl refl
        refl refl
    ∙ split_loop-comma rounds after next (names ++ result) p.0
    ∙ split_loop-name (reverse name) fuel rest [] 0 (next ∷ (names ++ result)) b.1
    ∙ ap (λ s. split_loop fuel rest s (pos 0) 0 (next ∷ (names ++ result)))
        (append-nil (reverse (reverse name)) ∙ reverse-reverse name)

length-rounds_of : (t : Bytes) (fuel : ℕ) → rounds_of t fuel ≡ length t + fuel
length-rounds_of [] fuel = omega arith
length-rounds_of (c ∷ t) fuel = omega (arith, length-rounds_of t fuel)

length-rounds_all :
    (name : Bytes) (names : List Bytes) (fuel : ℕ)
    → rounds_all name names fuel ≡ length (joined_by comma (name ∷ names)) + fuel
length-rounds_all name [] fuel =
    omega (arith, length-rounds_of (reverse name) fuel, length-reverse name)
length-rounds_all name (next ∷ names) fuel =
    let i = length-rounds_all next names (suc (suc (rounds_of (reverse name) fuel))) in
    let l = length-append name (comma ++ joined_by comma (next ∷ names)) in
    omega (arith, i, l, length-rounds_of (reverse name) fuel, length-reverse name)

-- Names joined by commas are taken apart again, where each is not empty, has no space at its ends,
-- and no quote or angle bracket; its parentheses match, and its commas stand inside them.
pub split_arguments-joined :
    (name : Bytes) (names : List Bytes)
    → is_argument name ≡ true
    → are_arguments names ≡ true
    → split_arguments (joined_by comma (name ∷ names)) ≡ some (name ∷ names)
split_arguments-joined name names h k =
    split_all (joined_by comma (name ∷ names))
      (nonempty_text name names (and_parts (starts_inked name) _ h).0)
    ∙ ap (λ n. split_loop n (reverse (joined_by comma (name ∷ names))) [] (pos 0) 0 [])
        (omega (arith, length-rounds_all name names 1))
    ∙ ap (λ t. split_loop (rounds_all name names 1) t [] (pos 0) 0 []) (sym (append-nil _))
    ∙ split_loop-names name names 1 [] [] h k
    ∙ split_loop-end name (names ++ []) h
    ∙ ap (λ ns. some (name ∷ ns)) (append-nil names)
