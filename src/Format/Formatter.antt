-- ===== src/Format/Formatter.antt =====
-- formatter/SimpleLogFormatter.hpp: a formatter with a pattern, or with JSON. Its parameters are those
-- of Fields. A byte above 127 is a negative char, and is written as it is.
pub mod Written
pub mod Render
pub mod Parts
pub mod Layouts
pub mod Meanings
pub mod Fitted
pub mod Messages
pub mod Reader
pub mod Objects
mod Tests
use log_it_cpp.Base.{
  ℕ, suc, Bool, true, false, Option, none, some, List, [], ◌∷◌, ◌++◌, map, if◌then◌else◌,
}
use log_it_cpp.Base.Ints.{ℤ, pos}
use log_it_cpp.Base.Decimal.{show_nat, show_int}
use log_it_cpp.Record.{Bytes, level_index}
use log_it_cpp.Otlp.Json.{escape_byte}
use log_it_cpp.Format.Pattern.{default, FormatInstruction, compile}
use log_it_cpp.Format.Values.{VariableValue, comma, value_text}
use log_it_cpp.Format.Fields.{Printer, LoggedRecord, joined_by, format_as_pattern}

pub record Config : Type 0 where
  pub pattern : Bytes
  pub json_format : Bool

pub record SimpleLogFormatter : Type 0 where
  pub config : Config
  pub compiled_instructions : List FormatInstruction
  pub offset_ms : ℤ

abbrev pub with_instructions :
    SimpleLogFormatter → Option (List FormatInstruction) → Option SimpleLogFormatter
with_instructions f none = none
with_instructions f (some instructions) = some (record f { compiled_instructions = instructions })

-- `none` if compiling the pattern would not end.
pub compile_pattern : SimpleLogFormatter → Option SimpleLogFormatter
compile_pattern f = with_instructions f (compile f.config.pattern default)

pub set_pattern : SimpleLogFormatter → Bytes → Bool → Option SimpleLogFormatter
set_pattern f pattern json_format =
    compile_pattern (record f { config = record { pattern = pattern; json_format = json_format } })

-- The constructor that takes a pattern.
pub new_formatter : Bytes → Bool → Option SimpleLogFormatter
new_formatter pattern json_format =
    set_pattern
      (record {
        config = record { pattern = []; json_format = false };
        compiled_instructions = [];
        offset_ms = pos 0;
      })
      pattern json_format

pub set_timestamp_offset : SimpleLogFormatter → ℤ → SimpleLogFormatter
set_timestamp_offset f offset_ms = record f { offset_ms = offset_ms }

-- The switch is that of the OTLP serializer.
pub escape_json_string : Bytes → Bytes
escape_json_string [] = []
escape_json_string (c ∷ input) = escape_byte c ++ escape_json_string input

-- "text"
abbrev pub quoted : Bytes → Bytes
quoted text = b'"' ∷ (escape_json_string text ++ b'"' ∷ [])

-- "key": before a value
abbrev pub key : Bytes → Bytes
key name = b'"' ∷ (name ++ b'"' ∷ b':' ∷ b' ' ∷ [])

-- The names of the members.
abbrev pub log_level_key : Bytes
log_level_key = key (b'l' ∷ b'o' ∷ b'g' ∷ b'_' ∷ b'l' ∷ b'e' ∷ b'v' ∷ b'e' ∷ b'l' ∷ [])

abbrev pub timestamp_ms_key : Bytes
timestamp_ms_key =
    key (b't' ∷ b'i' ∷ b'm' ∷ b'e' ∷ b's' ∷ b't' ∷ b'a' ∷ b'm' ∷ b'p' ∷ b'_' ∷ b'm' ∷ b's' ∷ [])

abbrev pub file_key : Bytes
file_key = key (b'f' ∷ b'i' ∷ b'l' ∷ b'e' ∷ [])

abbrev pub line_key : Bytes
line_key = key (b'l' ∷ b'i' ∷ b'n' ∷ b'e' ∷ [])

abbrev pub function_key : Bytes
function_key = key (b'f' ∷ b'u' ∷ b'n' ∷ b'c' ∷ b't' ∷ b'i' ∷ b'o' ∷ b'n' ∷ [])

abbrev pub format_key : Bytes
format_key = key (b'f' ∷ b'o' ∷ b'r' ∷ b'm' ∷ b'a' ∷ b't' ∷ [])

abbrev pub arg_names_key : Bytes
arg_names_key = key (b'a' ∷ b'r' ∷ b'g' ∷ b'_' ∷ b'n' ∷ b'a' ∷ b'm' ∷ b'e' ∷ b's' ∷ [])

abbrev pub args_array_key : Bytes
args_array_key = key (b'a' ∷ b'r' ∷ b'g' ∷ b's' ∷ b'_' ∷ b'a' ∷ b'r' ∷ b'r' ∷ b'a' ∷ b'y' ∷ [])

abbrev pub thread_id_key : Bytes
thread_id_key = key (b't' ∷ b'h' ∷ b'r' ∷ b'e' ∷ b'a' ∷ b'd' ∷ b'_' ∷ b'i' ∷ b'd' ∷ [])

-- The texts that are written one after the other.
abbrev pub texts : List Bytes → Bytes
texts [] = []
texts (a ∷ rest) = a ++ texts rest

module _ {D : Type 0} (printer : Printer D) where
  pub arg_text : VariableValue D → Bytes
  arg_text arg = quoted (value_text printer.values arg.value)

  pub format_as_json : LoggedRecord D → Bytes
  format_as_json r = texts (
      (b'{' ∷ [])
      ∷ log_level_key
      ∷ show_nat (level_index r.entry.log_level)
      ∷ comma
      ∷ timestamp_ms_key
      ∷ show_int r.entry.timestamp_ms
      ∷ comma
      ∷ file_key
      ∷ quoted r.entry.file
      ∷ comma
      ∷ line_key
      ∷ show_int r.entry.line
      ∷ comma
      ∷ function_key
      ∷ quoted r.entry.function
      ∷ comma
      ∷ format_key
      ∷ quoted r.entry.format
      ∷ comma
      ∷ arg_names_key
      ∷ quoted r.entry.arg_names
      ∷ comma
      ∷ args_array_key
      ∷ (b'[' ∷ [])
      ∷ joined_by comma (map arg_text r.args_array)
      ∷ (b']' ∷ [])
      ∷ comma
      ∷ thread_id_key
      ∷ quoted (printer.show_thread r.entry.thread_id)
      ∷ (b'}' ∷ [])
      ∷ [])

  pub format : SimpleLogFormatter → LoggedRecord D → Bytes
  format f r =
      if f.config.json_format
      then format_as_json r
      else format_as_pattern printer f.compiled_instructions f.offset_ms r
