-- ===== src/Format/Formatter/Parts.antt =====
-- SimpleLogFormatter: the texts that a layout is made of, written down apart from the code:
-- numbers, names, lists, and how a field is cut and filled. Escape codes are stripped as the code
-- does it.
use log_it_cpp.Base.{
  ℕ, ◌-◌, ◌/◌, Bool, true, false, ◌&&◌, ◌||◌, Option, none, some, List, [], ◌∷◌, ◌++◌, map, ltb,
  leb, ◌==◌, if◌then◌else◌, length, take, drop, replicate, filter,
}
use log_it_cpp.Base.Decimal.{show_nat}
use log_it_cpp.Record.{Bytes, LogLevel, trace, debug, info, warn, error, fatal}
use log_it_cpp.Context.{Mdc, Snapshot, text_eq}
use log_it_cpp.Format.{remove_ansi_escape_codes}
use log_it_cpp.Format.Pattern.{
  FormatType, file_name, full_file_name, source_file_and_line, function_name, Flags,
}
use log_it_cpp.Format.Values.{
  Value, string_value, error_code, string_type, exception_type, enum_type, path_type, VariableValue,
}

-- A number with two digits at least.
abbrev pub two : ℕ → Bytes
two n = if ltb n 10 then b'0' ∷ show_nat n else show_nat n

-- A number with three digits at least.
abbrev pub three : ℕ → Bytes
three n =
    if ltb n 10
    then b'0' ∷ b'0' ∷ show_nat n
    else if ltb n 100
    then b'0' ∷ show_nat n
    else show_nat n

-- A number with a space before a single digit.
abbrev pub blank_two : ℕ → Bytes
blank_two n = if ltb n 10 then b' ' ∷ show_nat n else show_nat n

abbrev pub level_name : LogLevel → Bytes
level_name trace = b'T' ∷ b'R' ∷ b'A' ∷ b'C' ∷ b'E' ∷ []
level_name debug = b'D' ∷ b'E' ∷ b'B' ∷ b'U' ∷ b'G' ∷ []
level_name info = b'I' ∷ b'N' ∷ b'F' ∷ b'O' ∷ []
level_name warn = b'W' ∷ b'A' ∷ b'R' ∷ b'N' ∷ []
level_name error = b'E' ∷ b'R' ∷ b'R' ∷ b'O' ∷ b'R' ∷ []
level_name fatal = b'F' ∷ b'A' ∷ b'T' ∷ b'A' ∷ b'L' ∷ []

-- Dark gray, blue, green, yellow, red and magenta.
abbrev pub level_code : LogLevel → Bytes
level_code trace = 27 ∷ b'[' ∷ b'9' ∷ b'0' ∷ b'm' ∷ []
level_code debug = 27 ∷ b'[' ∷ b'9' ∷ b'4' ∷ b'm' ∷ []
level_code info = 27 ∷ b'[' ∷ b'9' ∷ b'2' ∷ b'm' ∷ []
level_code warn = 27 ∷ b'[' ∷ b'9' ∷ b'3' ∷ b'm' ∷ []
level_code error = 27 ∷ b'[' ∷ b'9' ∷ b'1' ∷ b'm' ∷ []
level_code fatal = 27 ∷ b'[' ∷ b'9' ∷ b'5' ∷ b'm' ∷ []

-- Light gray.
abbrev pub normal_code : Bytes
normal_code = 27 ∷ b'[' ∷ b'3' ∷ b'7' ∷ b'm' ∷ []

-- The name after a later slash, if there is one, or else after this byte, if it is a slash.
abbrev pub later_or : Bool → Bytes → Option Bytes → Option Bytes
later_or is_slash path (some name) = some name
later_or true path none = some path
later_or false path none = none

-- What follows the last slash of a path, if it has one.
unfoldable pub after_slash : Bytes → Option Bytes
after_slash [] = none
after_slash (c ∷ path) = later_or (c == b'/' || c == b'\\') path (after_slash path)

abbrev pub name_or : Bytes → Option Bytes → Bytes
name_or path none = path
name_or path (some name) = name

abbrev pub name_in : Bytes → Bytes
name_in path = name_or path (after_slash path)

-- Texts, each after a separator.
unfoldable pub each_after : Bytes → List Bytes → Bytes
each_after separator [] = []
each_after separator (text ∷ texts) = separator ++ (text ++ each_after separator texts)

-- Texts with a separator between any two.
abbrev pub listed : Bytes → List Bytes → Bytes
listed separator [] = []
listed separator (text ∷ texts) = text ++ each_after separator texts

abbrev pub mdc_list : Option Snapshot → Bytes
mdc_list none = []
mdc_list (some s) = listed (b' ' ∷ []) (map (λ entry. entry.0 ++ b'=' ∷ entry.1) s.mdc)

abbrev pub first_text : Mdc → Bytes
first_text [] = []
first_text (entry ∷ m) = entry.1

-- The text under a key, or none.
abbrev pub mdc_under : Bytes → Option Snapshot → Bytes
mdc_under key none = []
mdc_under key (some s) = first_text (filter (λ entry. text_eq entry.0 key) s.mdc)

abbrev pub ndc_list : Option Snapshot → Bytes
ndc_list none = []
ndc_list (some s) = listed (b' ' ∷ b'>' ∷ b' ' ∷ []) s.ndc

-- A text, an exception or an error code: written without its name.
abbrev pub is_nameless : {D : Type 0} → Value D → Bool
is_nameless (string_value string_type s) = true
is_nameless (string_value exception_type s) = true
is_nameless (error_code s code) = true
is_nameless _ = false

-- A number, a truth value, a character, an enumerator or an unknown: written with its name if that
-- is a name.
abbrev pub is_named_literal : {D : Type 0} → Value D → Bool
is_named_literal (string_value enum_type s) = true
is_named_literal (string_value type_ s) = false
is_named_literal (error_code s code) = false
is_named_literal _ = true

-- What a format string writes as a whole: all but texts and error codes; paths are no texts here.
abbrev pub is_number_like : {D : Type 0} → Value D → Bool
is_number_like (string_value path_type s) = true
is_number_like (string_value type_ s) = false
is_number_like (error_code s code) = false
is_number_like _ = true

abbrev pub with_name : {D : Type 0} → Bool → VariableValue D → Bytes → Bytes
with_name is_named arg text = if is_named then arg.name ++ b':' ∷ b' ' ∷ text else text

-- A field is cut to its width only if that is asked for; names keep their start and their end.
abbrev pub middle_cut : ℕ → Bytes → Bytes
middle_cut width text =
    let dots = b'.' ∷ b'.' ∷ b'.' ∷ [] in
    let front = (width - 3) / 2 in
    if leb width 3
    then take width dots
    else take front text ++ dots ++ drop (length text - (width - 3 - front)) text

abbrev pub cut : Flags → Bool → Bytes → Bytes
cut f is_name text =
    if f.truncate && ltb f.width (length text)
    then if is_name then middle_cut f.width text else take f.width text
    else text

-- A short text is filled up with spaces, at its right, on both sides or, by default, at its left.
abbrev pub filled : Flags → Bytes → Bytes
filled f text =
    let missing = f.width - length text in
    if f.left_align
    then text ++ replicate missing b' '
    else if f.center_align
    then replicate (missing / 2) b' ' ++ text ++ replicate (missing - missing / 2) b' '
    else replicate missing b' ' ++ text

abbrev pub holds_name : FormatType → Bool
holds_name file_name = true
holds_name full_file_name = true
holds_name source_file_and_line = true
holds_name function_name = true
holds_name _ = false

abbrev pub fitted : Bool → Flags → Bool → Bytes → Bytes
fitted strip f is_name text =
    filled f (cut f is_name (if strip then remove_ansi_escape_codes text else text))
