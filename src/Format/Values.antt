-- ===== src/Format/Values.antt =====
-- utils/VariableValue.hpp: a logged argument and its text; formatter/compiler/PatternCompiler.hpp: the
-- text of a message with its arguments. A value is a tagged union. How printf, the fmt library and
-- std::to_string write one value is a parameter, and a floating value is of any type `D`.
use log_it_cpp.Base.{ℕ, Bool, true, false, not, ◌&&◌, List, [], ◌∷◌, ◌++◌, leb, if◌then◌else◌}
use log_it_cpp.Base.Ints.{ℤ}
use log_it_cpp.Base.Decimal.{show_int}
use log_it_cpp.Record.{Bytes, LogRecord}

pub data IntegerType : Type 0 where
  int8 uint8 int16 uint16 int32 uint32 int64 uint64 : IntegerType

pub data FloatType : Type 0 where
  float double long_double : FloatType

-- The types whose text is string_value.
pub data StringType : Type 0 where
  string_type exception_type enum_type path_type duration_type time_point_type : StringType
  pointer_type smart_pointer_type variant_type optional_type : StringType

pub data Value (D : Type 0) : Type 0 where
  integer : IntegerType → ℤ → Value D
  boolean : Bool → Value D
  character : ℕ → Value D
  floating : FloatType → D → Value D
  string_value : StringType → Bytes → Value D
  error_code : Bytes → ℤ → Value D
  unknown : Value D

pub record VariableValue (D : Type 0) : Type 0 where
  pub name : Bytes
  pub is_literal : Bool
  pub value : Value D

-- A name that does not begin with a digit.
unfoldable pub is_valid_literal_name : Bytes → Bool
is_valid_literal_name [] = false
is_valid_literal_name (c ∷ name) = not (leb 48 c && leb c 57)

-- What the constructors of VariableValue have in common.
abbrev pub variable : {D : Type 0} → Bytes → Value D → VariableValue D
variable name value = record { name = name; is_literal = is_valid_literal_name name; value = value }

abbrev pub unknown_text : Bytes
unknown_text = b'u' ∷ b'n' ∷ b'k' ∷ b'n' ∷ b'o' ∷ b'w' ∷ b'n' ∷ []

abbrev pub true_text : Bytes
true_text = b't' ∷ b'r' ∷ b'u' ∷ b'e' ∷ []

abbrev pub false_text : Bytes
false_text = b'f' ∷ b'a' ∷ b'l' ∷ b's' ∷ b'e' ∷ []

abbrev pub comma : Bytes
comma = b',' ∷ b' ' ∷ []

abbrev pub colon : Bytes
colon = b':' ∷ b' ' ∷ []

-- std::to_string of a floating value, printf and fmt::format of one value.
pub record ValuePrinter (D : Type 0) : Type 0 where
  pub show_float : FloatType → D → Bytes
  pub printf : Bytes → Value D → Bytes
  pub fmt_format : Bytes → Value D → Bytes

module _ {D : Type 0} (printer : ValuePrinter D) where
  -- `to_string()`.
  unfoldable pub value_text : Value D → Bytes
  value_text (integer type_ z) = show_int z
  value_text (boolean b) = if b then true_text else false_text
  value_text (character c) = c ∷ []
  value_text (floating type_ d) = printer.show_float type_ d
  value_text (string_value type_ text) = text
  value_text (error_code text code) = text ++ b' ' ∷ b'(' ∷ (show_int code ++ b')' ∷ [])
  value_text unknown = unknown_text

  -- `to_string(fmt)` and `to_string_fmt(fmt)`.
  unfoldable pub formatted_text : Bool → Bytes → Value D → Bytes
  formatted_text fmt_mode format unknown = unknown_text
  formatted_text fmt_mode format v =
      if fmt_mode then printer.fmt_format format v else printer.printf format v

  abbrev pub named : VariableValue D → Bytes → Bytes
  named arg text = arg.name ++ (colon ++ text)

  -- An argument with a format string: its name is written before a number, a path or an unknown.
  unfoldable pub write_formatted : Bool → Bytes → VariableValue D → Bytes
  write_formatted fmt_mode format arg =
      let text = formatted_text fmt_mode format arg.value in
      elim arg.value [
        | string_value path_type s ↦ if arg.is_literal then named arg text else text
        | string_value type_ s ↦ text
        | error_code s code ↦ text
        | _ ↦ if arg.is_literal then named arg text else text
      ]

  -- An argument without one.
  unfoldable pub write_plain : Bool → VariableValue D → Bytes
  write_plain print_mode arg =
      let text = value_text arg.value in
      let by_mode = if print_mode then text else named arg text in
      elim arg.value [
        | string_value string_type s ↦ text
        | string_value exception_type s ↦ text
        | error_code s code ↦ text
        | string_value enum_type s ↦ if arg.is_literal then by_mode else text
        | string_value type_ s ↦ by_mode
        | _ ↦ if arg.is_literal then by_mode else text
      ]

  -- The loops over args_array: a comma before each argument but the first, unless print_mode.
  unfoldable pub write_args :
      Bool → (VariableValue D → Bytes) → Bool → List (VariableValue D) → Bytes
  write_args print_mode write first [] = []
  write_args print_mode write first (arg ∷ args) =
      (if not print_mode && not first then comma else [])
      ++ (write arg ++ write_args print_mode write false args)

  -- The case Message.
  unfoldable pub message_text : LogRecord → List (VariableValue D) → Bytes
  message_text r args = elim r.format [
    | [] ↦ write_args r.print_mode (write_plain r.print_mode) true args
    | c ∷ format ↦ elim args [
      | [] ↦ r.format
      | arg ∷ rest ↦ write_args r.print_mode (write_formatted r.fmt_mode r.format) true (arg ∷ rest)
    ]
  ]
