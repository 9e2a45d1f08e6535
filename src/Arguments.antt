-- ===== src/Arguments.antt =====
-- utils/argument_utils.hpp: the names of a call's arguments, taken apart. The code reads the text from
-- its end; `rest` is what it has not read, the last byte first, and `seen` what it has read since the
-- last cut, in the order of the text. Where it would read outside the text or make a string of a range
-- that runs backwards (an argument of spaces alone), the result is `none`.
pub mod Split
mod Tests
use log_it_cpp.Base.{
  ℕ, zero, suc, ◌+◌, ◌-◌, Bool, true, false, not, ◌&&◌, ◌||◌, Option, none, some, List, [], ◌∷◌,
  ◌++◌, reverse, ltb, ◌==◌, if◌then◌else◌, length,
}
use log_it_cpp.Base.Ints.{ℤ, pos, negsuc, ◌+ℤ◌}
use log_it_cpp.Record.{Bytes}
use log_it_cpp.Files.{date_eq}

abbrev pub is_blank : ℕ → Bool
is_blank c = c == b' ' || c == 9 || c == 10 || c == 13 || c == 12 || c == 11

-- The text after a '>', from the first byte that is not blank on, begins with "::".
pub follows_scope : Bytes → Bool
follows_scope [] = false
follows_scope (c ∷ []) = false
follows_scope (c ∷ d ∷ t) =
    let more = follows_scope (d ∷ t) in if is_blank c then more else c == b':' && d == b':'

pub is_closing_template : ℕ → Bytes → Bool
is_closing_template c seen = c == b'>' && follows_scope seen

-- The loop to the opening quote, with what it has read and what is left.
pub skip_string : ℕ → Bytes → Bytes → Bytes × Bytes
skip_string quote [] seen = ([], seen)
skip_string quote (c ∷ []) seen = ([], c ∷ seen)
skip_string quote (c ∷ d ∷ rest) seen =
    let more = skip_string quote (d ∷ rest) (c ∷ seen) in
    if c == quote && not (d == b'\\') then (d ∷ rest, c ∷ seen) else more

-- A string that ends here is skipped. A quote after a backslash is no end.
pub skip_quoted : Bytes → Bytes → Bytes × Bytes
skip_quoted [] seen = ([], seen)
skip_quoted (c ∷ []) seen = (c ∷ [], seen)
skip_quoted (c ∷ d ∷ rest) seen =
    let skipped = skip_string c (d ∷ rest) (c ∷ seen) in
    if (c == b'"' || c == b'\'') && not (d == b'\\') then skipped else (c ∷ d ∷ rest, seen)

pub trim_start : Bytes → Bytes
trim_start [] = []
trim_start (c ∷ t) = let more = trim_start t in if c == b' ' then more else c ∷ t

abbrev pub nonempty : Bytes → Option Bytes
nonempty [] = none
nonempty (c ∷ t) = some (c ∷ t)

-- The text between two cuts without the spaces around it.
pub trimmed : Bytes → Option Bytes
trimmed seen = nonempty (reverse (trim_start (reverse (trim_start seen))))

abbrev pub put_first : Option Bytes → List Bytes → Option (List Bytes)
put_first none result = none
put_first (some name) result = some (name ∷ result)

abbrev pub and_then : Option (List Bytes) → (List Bytes → Option (List Bytes)) → Option (List Bytes)
and_then none k = none
and_then (some result) k = k result

abbrev pub new_parentheses : ℕ → ℤ → ℤ
new_parentheses c n = if c == b')' then n +ℤ pos 1 else if c == b'(' then n +ℤ negsuc 0 else n

abbrev pub new_angles : ℕ → Bytes → ℕ → ℕ
new_angles c seen n =
    if c == b')' || c == b'('
    then n
    else if is_closing_template c seen
    then n + 1
    else if c == b'<' && ltb 0 n
    then n - 1
    else n

abbrev pub is_cut : ℕ → ℤ → ℕ → Bool
is_cut c parentheses angles = c == b',' && date_eq parentheses (pos 0) && angles == 0

-- A round of the loop after the strings, and the rounds after it.
pub after_quoted :
    (Bytes → Bytes → ℤ → ℕ → List Bytes → Option (List Bytes))
    → Bytes × Bytes
    → ℤ
    → ℕ
    → List Bytes
    → Option (List Bytes)
after_quoted again ([], seen) parentheses angles result = put_first (trimmed seen) result
after_quoted again (c ∷ rest, seen) parentheses angles result =
    let cut = and_then (put_first (trimmed seen) result) (again rest [] parentheses angles) in
    let more =
      again rest (c ∷ seen) (new_parentheses c parentheses) (new_angles c seen angles) result in
    if is_cut c parentheses angles then cut else more

-- A round costs one unit of fuel.
pub split_loop : ℕ → Bytes → Bytes → ℤ → ℕ → List Bytes → Option (List Bytes)
split_loop zero rest seen parentheses angles result = none
split_loop (suc fuel) rest seen parentheses angles result =
    after_quoted (split_loop fuel) (skip_quoted rest seen) parentheses angles result

pub split_arguments : Bytes → Option (List Bytes)
split_arguments [] = some []
split_arguments (c ∷ all_names) =
    split_loop (suc (suc (length all_names))) (reverse (c ∷ all_names)) [] (pos 0) 0 []
