-- ===== src/Format/Formatter/Reader.antt =====
-- A reader of the JSON that SimpleLogFormatter writes: objects of numbers, strings and arrays of
-- strings.
use log_it_cpp.Base.{
  ℕ, zero, suc, ◌<◌, length-append, ◌≡◌, refl, sym, ap, ◌∙◌, true, false, Option, none, some, List,
  [], ◌∷◌, ◌++◌, append_assoc, map, ◌==◌, if◌then◌else◌, length, arith,
}
use log_it_cpp.Base.Ints.{ℤ, pos, negsuc}
use log_it_cpp.Base.Decimal.{
  show_nat, show_int, read_nat, is_digit, starts_digit, read_nat-show_nat, show_nat-cons,
}
use log_it_cpp.Record.{Bytes}
use log_it_cpp.Otlp.Json.{escape_byte, otlp_json_escape}
use log_it_cpp.Otlp.Json.Escape.{plain, read_string, read-otlp_json_escape, and_next}
use log_it_cpp.Format.Values.{comma}
use log_it_cpp.Format.Fields.{joined_by}
use log_it_cpp.Format.Formatter.{escape_json_string, quoted}

pub data Json : Type 0 where
  number : ℤ → Json
  string : Bytes → Json
  array : List Bytes → Json

-- What follows one byte that has to be there.
abbrev pub expect : ℕ → Bytes → Option Bytes
expect d [] = none
expect d (c ∷ t) = if c == d then some t else none

-- A reader of one or more strings of an array, each but the first after a comma and a space, up to
-- the bracket.
pub read_strings : ℕ → Bytes → Option (List Bytes × Bytes)
read_strings zero t = none
read_strings (suc fuel) t = and_next (expect b'"' t) λ a. and_next (read_string plain a) λ (s, u).
    elim u [
      | [] ↦ none
      | d ∷ rest ↦
          let more =
            and_next (expect b' ' rest)
              λ r. and_next (read_strings fuel r) λ (strings, v). some (s ∷ strings, v) in
          if d == b',' then more else if d == b']' then some (s ∷ [], rest) else none
    ]

-- A reader of an array of strings, from after its bracket. It has fewer strings than bytes.
abbrev pub read_array : Bytes → Option (List Bytes × Bytes)
read_array [] = none
read_array (c ∷ t) = if c == b']' then some ([], t) else read_strings (suc (length t)) (c ∷ t)

-- A reader of one or more digits; it takes zeros before them.
abbrev pub read_digits : Bytes → Option (ℕ × Bytes)
read_digits t = if starts_digit t then some (read_nat 0 t) else none

abbrev negative : ℕ → ℤ
negative zero = pos 0
negative (suc n) = negsuc n

-- A reader of a value.
pub read_value : Bytes → Option (Json × Bytes)
read_value [] = none
read_value (c ∷ t) =
    if c == b'"'
    then and_next (read_string plain t) (λ (s, rest). some (string s, rest))
    else if c == b'['
    then and_next (read_array t) (λ (strings, rest). some (array strings, rest))
    else if c == b'-'
    then and_next (read_digits t) (λ (n, rest). some (number (negative n), rest))
    else and_next (read_digits (c ∷ t)) (λ (n, rest). some (number (pos n), rest))

-- A reader of one or more members of an object, each but the first after a comma and a space, up to
-- the brace.
pub read_members : ℕ → Bytes → Option (List (Bytes × Json) × Bytes)
read_members zero t = none
read_members (suc fuel) t = and_next (expect b'"' t) λ a.
    and_next (read_string plain a) λ (name, b). and_next (expect b':' b) λ c.
      and_next (expect b' ' c) λ d. and_next (read_value d) λ (v, u). elim u [
        | [] ↦ none
        | d ∷ rest ↦
            let more =
              and_next (expect b' ' rest)
                λ r. and_next (read_members fuel r) λ (members, w). some ((name, v) ∷ members, w) in
            if d == b',' then more else if d == b'}' then some ((name, v) ∷ [], rest) else none
      ]

-- A reader of an object with members, at most as many as given: of the JSON that has a space after
-- each comma and colon of an array or an object and no other space between its tokens.
unfoldable pub read_object : ℕ → Bytes → Option (List (Bytes × Json) × Bytes)
read_object members t = and_next (expect b'{' t) (read_members members)

escape-same : (t : Bytes) → escape_json_string t ≡ otlp_json_escape t
unfolding escape_json_string otlp_json_escape
escape-same [] = refl
escape-same (c ∷ t) = ap (◌++◌ (escape_byte c)) (escape-same t)

-- A quoted text is read back, from after its first quote.
read-quoted :
    (t rest : Bytes)
    → read_string plain ((escape_json_string t ++ b'"' ∷ []) ++ rest) ≡ some (t, rest)
read-quoted t rest =
    ap (read_string plain) (
      append_assoc (escape_json_string t) (b'"' ∷ []) rest
      ∙ ap (λ e. e ++ b'"' ∷ rest) (escape-same t))
    ∙ read-otlp_json_escape t rest

read_strings-joined_by :
    (fuel : ℕ) (s : Bytes) (strings : List Bytes) (rest : Bytes)
    → length strings < fuel
    → read_strings fuel (joined_by comma (map quoted (s ∷ strings)) ++ b']' ∷ rest)
      ≡ some (s ∷ strings, rest)
unfolding read_strings
read_strings-joined_by zero s strings rest h = absurd (omega (arith, h))
read_strings-joined_by (suc fuel) s [] rest h = rw (read-quoted s (b']' ∷ rest)) refl
read_strings-joined_by (suc fuel) s (s' ∷ strings) rest h =
    let tail = joined_by comma (map quoted (s' ∷ strings)) in
    rw
      (
        append_assoc (escape_json_string s ++ b'"' ∷ []) (comma ++ tail) (b']' ∷ rest),
        read-quoted s (comma ++ (tail ++ b']' ∷ rest)),
        read_strings-joined_by fuel s' strings rest (omega (arith, h)),
      )
      refl

-- The text of a value, as the formatter writes it.
abbrev pub write_value : Json → Bytes
write_value (number z) = show_int z
write_value (string t) = quoted t
write_value (array strings) = b'[' ∷ (joined_by comma (map quoted strings) ++ b']' ∷ [])

length-joined_by :
    (s : Bytes) (strings : List Bytes)
    → length strings < length (joined_by comma (map quoted (s ∷ strings)))
length-joined_by s [] = omega (arith, length-append (escape_json_string s) (b'"' ∷ []))
length-joined_by s (s' ∷ strings) =
    let tail = joined_by comma (map quoted (s' ∷ strings)) in
    let l = length-append (escape_json_string s ++ b'"' ∷ []) (comma ++ tail) in
    omega (arith, length-joined_by s' strings, l)

read_array-joined_by :
    (strings : List Bytes) (rest : Bytes)
    → read_array (joined_by comma (map quoted strings) ++ b']' ∷ rest) ≡ some (strings, rest)
read_array-joined_by [] rest = refl
read_array-joined_by (s ∷ []) rest = read_strings-joined_by _ s [] rest (omega arith)
read_array-joined_by (s ∷ s' ∷ strings) rest = read_strings-joined_by _ s (s' ∷ strings) rest (
    omega (
      arith,
      length-joined_by s (s' ∷ strings),
      length-append (joined_by comma (map quoted (s ∷ s' ∷ strings))) (b']' ∷ rest),
    ))

read_digits-show_nat :
    (n : ℕ) (rest : Bytes)
    → starts_digit rest ≡ false
    → read_digits (show_nat n ++ rest) ≡ some (n, rest)
read_digits-show_nat n rest h =
    let (c, t, e, d) = show_nat-cons n in
    ap (λ b. if b then some (read_nat 0 (show_nat n ++ rest)) else none)
      (ap (λ xs. starts_digit (xs ++ rest)) e ∙ d)
    ∙ ap some (read_nat-show_nat n rest h)

read_value-show_nat :
    (n : ℕ) (rest : Bytes)
    → starts_digit rest ≡ false
    → read_value (show_nat n ++ rest) ≡ some (number (pos n), rest)
unfolding read_value
read_value-show_nat n rest h =
    let (c, t, e, d) = show_nat-cons n in
    ap (λ xs. read_value (xs ++ rest)) e
    ∙ first_digit c (t ++ rest) d
    ∙ ap (λ xs. and_next (read_digits (xs ++ rest)) (λ (n, rest). some (number (pos n), rest)))
        (sym e)
    ∙ ap (λ o. and_next o (λ (n, rest). some (number (pos n), rest)))
        (read_digits-show_nat n rest h)
  where
    first_digit :
        (c : ℕ) (t : Bytes)
        → is_digit c ≡ true
        → read_value (c ∷ t)
          ≡ and_next (read_digits (c ∷ t)) (λ (n, rest). some (number (pos n), rest))
    first_digit c t d = ground (arith, d)

read_value-write_value :
    (v : Json) (rest : Bytes)
    → starts_digit rest ≡ false
    → read_value (write_value v ++ rest) ≡ some (v, rest)
unfolding read_value
read_value-write_value (number (pos n)) rest h = read_value-show_nat n rest h
read_value-write_value (number (negsuc n)) rest h =
    ap (λ o. and_next o (λ (n, rest). some (number (negative n), rest)))
      (read_digits-show_nat (suc n) rest h)
read_value-write_value (string t) rest h =
    ap (λ o. and_next o λ (s, u). some (string s, u)) (read-quoted t rest)
read_value-write_value (array strings) rest h =
    let tail = joined_by comma (map quoted strings) in
    ap (λ o. and_next o λ (ss, u). some (array ss, u))
      (ap read_array (append_assoc tail (b']' ∷ []) rest) ∙ read_array-joined_by strings rest)

-- A member of an object: its name, and its value.
abbrev pub write_member : Bytes × Json → Bytes
write_member (name, v) = quoted name ++ b':' ∷ b' ' ∷ write_value v

pub read_members-joined_by :
    (fuel : ℕ) (name : Bytes) (v : Json) (members : List (Bytes × Json)) (rest : Bytes)
    → length members < fuel
    → read_members fuel
        (joined_by comma (write_member (name, v) ∷ map write_member members) ++ b'}' ∷ rest)
      ≡ some ((name, v) ∷ members, rest)
unfolding read_members
read_members-joined_by zero name v members rest h = absurd (omega (arith, h))
read_members-joined_by (suc fuel) name v [] rest h =
    rw
      (
        append_assoc (escape_json_string name ++ b'"' ∷ []) (b':' ∷ b' ' ∷ write_value v)
            (b'}' ∷ rest),
        read-quoted name (b':' ∷ b' ' ∷ (write_value v ++ b'}' ∷ rest)),
        read_value-write_value v (b'}' ∷ rest) refl,
      )
      refl
read_members-joined_by (suc fuel) name v ((name', v') ∷ members) rest h =
    let tail = joined_by comma (map write_member ((name', v') ∷ members)) in
    rw
      (
        append_assoc ((escape_json_string name ++ b'"' ∷ []) ++ b':' ∷ b' ' ∷ write_value v)
            (comma ++ tail) (b'}' ∷ rest),
        append_assoc (escape_json_string name ++ b'"' ∷ []) (b':' ∷ b' ' ∷ write_value v)
            (comma ++ (tail ++ b'}' ∷ rest)),
        read-quoted name (b':' ∷ b' ' ∷ (write_value v ++ (comma ++ (tail ++ b'}' ∷ rest)))),
        read_value-write_value v (comma ++ (tail ++ b'}' ∷ rest)) refl,
        read_members-joined_by fuel name' v' members rest (omega (arith, h)),
      )
      refl
