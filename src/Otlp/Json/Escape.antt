-- ===== src/Otlp/Json/Escape.antt =====
-- OtlpJsonSerializer.hpp: strings are read back.
use log_it_cpp.Base.{
  ℕ, zero, suc, ◌+◌, ◌-◌, ◌*◌, ◌≡◌, refl, ap, ◌∙◌, Bool, Option, none, some, [], ◌∷◌, ◌++◌,
  append_assoc, leb, ltb, ◌&&◌, ◌||◌, ◌==◌, if◌then◌else◌, arith,
}
use log_it_cpp.Base.Ints.{ℤ}
use log_it_cpp.Record.{Bytes}
use log_it_cpp.Otlp.Json.{escape_byte, otlp_json_escape, write_string_attr}
use log_it_cpp.Otlp.Json.Texts.{key_start, string_value, string_end}

-- Where a reader of a JSON string is: in plain text, after a backslash, or before the last
-- hexadecimal digits of a code, of which it has read a number.
pub data Mode : Type 0 where
  plain escaped : Mode
  hex : ℕ → ℕ → Mode

-- Whether a byte is a hexadecimal digit.
abbrev pub is_hex : ℕ → Bool
is_hex c = leb 48 c && leb c 57 || leb 65 c && leb c 70 || leb 97 c && leb c 102

abbrev pub digit_of : ℕ → ℕ
digit_of c = if leb 97 c then c - 87 else if leb 65 c then c - 55 else c - 48

-- The character that an escape letter stands for, of the letters that JSON has but `u`.
abbrev pub letter_of : ℕ → Option ℕ
letter_of c =
    if c == 98
    then some 8
    else if c == 102
    then some 12
    else if c == 110
    then some 10
    else if c == 114
    then some 13
    else if c == 116
    then some 9
    else if c == 34 || c == 47 || c == 92
    then some c
    else none

abbrev pub put_first : ℕ → Option (Bytes × Bytes) → Option (Bytes × Bytes)
put_first c none = none
put_first c (some (t, rest)) = some (c ∷ t, rest)

-- The character that an escape letter stands for, before the rest of the string.
abbrev put_letter : Option ℕ → Option (Bytes × Bytes) → Option (Bytes × Bytes)
put_letter none rest = none
put_letter (some c) rest = put_first c rest

-- A strict reader of a JSON string: the string up to the closing quote, and what follows it. It
-- refuses a control byte that is not escaped, an escape that JSON does not have, and a code with
-- another character than four hexadecimal digits; of the codes it takes those below 128, and bytes
-- above 127 it takes as they are.
unfoldable pub read_string : Mode → Bytes → Option (Bytes × Bytes)
read_string mode [] = none
read_string plain (c ∷ t) =
    let rest = read_string plain t in
    let after = read_string escaped t in
    if c == 34
    then some ([], t)
    else if c == 92
    then after
    else if ltb c 32
    then none
    else put_first c rest
read_string escaped (c ∷ t) =
    let rest = read_string plain t in
    let code = read_string (hex 3 0) t in if c == 117 then code else put_letter (letter_of c) rest
read_string (hex zero n) (c ∷ t) =
    let rest = read_string plain t in
    if is_hex c && ltb (n * 16 + digit_of c) 128 then put_first (n * 16 + digit_of c) rest else none
read_string (hex (suc k) n) (c ∷ t) =
    let rest = read_string (hex k (n * 16 + digit_of c)) t in if is_hex c then rest else none

read-escape_byte :
    (c : ℕ) (t : Bytes) → read_string plain (escape_byte c ++ t) ≡ put_first c (read_string plain t)
unfolding read_string escape_byte
read-escape_byte c t = ground arith

-- A string that was escaped is read back, with the text after its closing quote.
pub read-otlp_json_escape :
    (value rest : Bytes)
    → read_string plain (otlp_json_escape value ++ 34 ∷ rest) ≡ some (value, rest)
unfolding otlp_json_escape
read-otlp_json_escape [] rest = unfold read_string in refl
read-otlp_json_escape (c ∷ value) rest =
    ap (read_string plain) (append_assoc (escape_byte c) (otlp_json_escape value) (34 ∷ rest))
    ∙ read-escape_byte c (otlp_json_escape value ++ 34 ∷ rest)
    ∙ ap (put_first c) (read-otlp_json_escape value rest)

-- {"key":"
abbrev attr_open : Bytes
attr_open = b'{' ∷ b'"' ∷ b'k' ∷ b'e' ∷ b'y' ∷ b'"' ∷ b':' ∷ b'"' ∷ []

-- ,"value":{"stringValue":"
abbrev attr_middle : Bytes
attr_middle =
    b',' ∷ b'"' ∷ b'v' ∷ b'a' ∷ b'l' ∷ b'u' ∷ b'e' ∷ b'"' ∷ b':' ∷ b'{' ∷ b'"' ∷ b's' ∷ b't' ∷ b'r'
    ∷ b'i' ∷ b'n' ∷ b'g' ∷ b'V' ∷ b'a' ∷ b'l' ∷ b'u' ∷ b'e' ∷ b'"' ∷ b':' ∷ b'"' ∷ []

-- }}
abbrev attr_close : Bytes
attr_close = b'}' ∷ b'}' ∷ []

-- What follows a fixed text.
abbrev pub strip : Bytes → Bytes → Option Bytes
strip [] t = some t
strip (c ∷ text) [] = none
strip (c ∷ text) (d ∷ t) = let rest = strip text t in if c == d then rest else none

strip-append : (text t : Bytes) → strip text (text ++ t) ≡ some t
strip-append [] t = refl
strip-append (c ∷ text) t = ground (arith, strip-append text t)

abbrev pub and_next {ℓ κ} : {A : Type ℓ} {C : Type κ} → Option A → (A → Option C) → Option C
and_next none k = none
and_next (some a) k = k a

-- A reader of a string attribute: its key, its value, and what follows it.
pub read_attr : Bytes → Option (Bytes × Bytes × Bytes)
read_attr text = and_next (strip attr_open text) λ a. and_next (read_string plain a) λ (k, b).
    and_next (strip attr_middle b) λ d.
      and_next (read_string plain d)
        λ (v, e). and_next (strip attr_close e) λ rest. some (k, v, rest)

module _ {D : Type 0} (show_int : ℤ → Bytes) (show_nat : ℕ → Bytes) (is_finite : D → Bool)
    (show_double to_string_double : D → Bytes) where
  -- Whatever bytes a key and a value hold, a string attribute is read back as an object with that key
  -- under "key" and that value under "stringValue" of its "value", and what follows it is left, by a
  -- reader that refuses other punctuation, unescaped control bytes, escapes that JSON does not have
  -- and malformed codes; bytes above 127 it takes as they are.
  pub read_attr-write_string_attr :
      (key value rest : Bytes)
      → read_attr (
          write_string_attr show_int show_nat is_finite show_double to_string_double key value
          ++ rest)
        ≡ some (key, value, rest)
  unfolding read_attr write_string_attr
  read_attr-write_string_attr key value rest =
      let inner = otlp_json_escape value ++ string_end in
      let after = attr_middle ++ (otlp_json_escape value ++ 34 ∷ (attr_close ++ rest)) in
      ap read_attr (
        append_assoc key_start (otlp_json_escape key ++ (string_value ++ inner)) rest
        ∙ ap (◌++◌ key_start) (
            append_assoc (otlp_json_escape key) (string_value ++ inner) rest
            ∙ ap (◌++◌ (otlp_json_escape key)) (
                append_assoc string_value inner rest
                ∙ ap (◌++◌ string_value) (append_assoc (otlp_json_escape value) string_end rest))))
      ∙ ap
          (λ o. and_next o λ a. and_next (read_string plain a) λ (k, b).
            and_next (strip attr_middle b) λ d.
              and_next (read_string plain d)
                λ (v, e). and_next (strip attr_close e) λ r. some (k, v, r))
          (strip-append attr_open (otlp_json_escape key ++ 34 ∷ after))
      ∙ ap
          (λ o. and_next o λ (k, b). and_next (strip attr_middle b) λ d.
            and_next (read_string plain d)
              λ (v, e). and_next (strip attr_close e) λ r. some (k, v, r))
          (read-otlp_json_escape key after)
      ∙ ap
          (λ o. and_next o λ d.
            and_next (read_string plain d)
              λ (v, e). and_next (strip attr_close e) λ r. some (key, v, r))
          (strip-append attr_middle (otlp_json_escape value ++ 34 ∷ (attr_close ++ rest)))
      ∙ ap (λ o. and_next o λ (v, e). and_next (strip attr_close e) λ r. some (key, v, r))
          (read-otlp_json_escape value (attr_close ++ rest))
      ∙ ap (λ o. and_next o λ r. some (key, value, r)) (strip-append attr_close rest)
