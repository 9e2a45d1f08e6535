-- ===== src/Otlp/Json/Tests.antt =====
-- OtlpJsonSerializer.hpp: the keys of arguments, and an attribute that is read back.
use log_it_cpp.Base.{
  ℕ, ℕ_discrete, get_elem?, ◌+◌, ◌≡◌, refl, Bool, true, none, some, List, [], ◌∷◌, ◌++◌,
}
use log_it_cpp.Base.Ints.{ℤ}
use log_it_cpp.Base.Store.{find, put}
use log_it_cpp.Record.{Bytes}
use log_it_cpp.Otlp.Json.{
  write_string_attr, sanitize_otlp_key, first_key, counted_key, write_args, write_arg, Arg,
  as_string, bytes_eq,
}
use log_it_cpp.Otlp.Json.Escape.{plain, read_string, read_attr, read_attr-write_string_attr}

abbrev show_int : ℤ → Bytes
show_int z = []

-- One digit.
abbrev show_nat : ℕ → Bytes
show_nat n = (48 + n) ∷ []

abbrev finite : ℕ → Bool
finite d = true

abbrev show_double : ℕ → Bytes
show_double d = []

read_attr-write_string_attr_example :
    read_attr (
      write_string_attr show_int show_nat finite show_double show_double
        (97 ∷ [])
        (34 ∷ 7 ∷ 92 ∷ [])
      ++ 44 ∷ [])
    ≡ some (97 ∷ [], 34 ∷ 7 ∷ 92 ∷ [], 44 ∷ [])
read_attr-write_string_attr_example =
    read_attr-write_string_attr show_int show_nat finite show_double show_double (97 ∷ [])
      (34 ∷ 7 ∷ 92 ∷ []) (44 ∷ [])

-- What the reader of a string refuses: a line end that is not escaped, an escape that JSON does not
-- have, and a code that is not hexadecimal.
read_string-refused_test :
    (read_string plain (97 ∷ 10 ∷ 34 ∷ []) ≡ none)
    × (read_string plain (92 ∷ 120 ∷ 34 ∷ []) ≡ none)
    × (read_string plain (92 ∷ 117 ∷ 48 ∷ 48 ∷ 48 ∷ 103 ∷ 34 ∷ []) ≡ none)
unfolding read_string
read_string-refused_test = (refl, refl, refl)

-- The code of a line end.
read_string_test : read_string plain (92 ∷ 117 ∷ 48 ∷ 48 ∷ 48 ∷ 65 ∷ 34 ∷ []) ≡ some (10 ∷ [], [])
unfolding read_string
read_string_test = refl

abbrev arg_named : Bytes → Arg ℕ
arg_named name = record { name = name; value = as_string [] }

-- The arguments `1.1`, `1` and `1`.
abbrev three_args : List (Arg ℕ)
three_args = arg_named (49 ∷ 46 ∷ 49 ∷ []) ∷ arg_named (49 ∷ []) ∷ arg_named (49 ∷ []) ∷ []

-- The first and the third get the same key.
same_key_test :
    get_elem? (write_args show_int show_nat finite show_double show_double [] 0 [] three_args) 0
    ≡ get_elem? (write_args show_int show_nat finite show_double show_double [] 0 [] three_args) 2
unfolding write_args write_arg first_key counted_key sanitize_otlp_key find put bytes_eq ℕ_discrete
same_key_test = refl
