-- ===== src/Format/Formatter/Tests.antt =====
-- Concrete formatters and records. Floating values are numbers, printed as such.
use log_it_cpp.Base.{ℕ, ◌/◌, ◌%◌, ◌≡◌, refl, true, false, none, some, [], ◌∷◌, ◌++◌}
use log_it_cpp.Base.Ints.{ℤ, pos, negsuc, pos_part, ◌+ℤ◌}
use log_it_cpp.Base.Decimal.{show_nat, decimal}
use log_it_cpp.Record.{warn}
use log_it_cpp.Format.{remove_ansi_escape_codes, strip_from}
use log_it_cpp.Format.Pattern.{no_flags, message, file_name, log_level, minute}
use log_it_cpp.Format.Pattern.Print.{
  Layout, done, literal, field, colour, fallback, print, spelling, clashes,
}
use log_it_cpp.Format.Values.{
  ValuePrinter, variable, integer, int32, string_value, string_type, message_text, write_args,
  write_plain, value_text, is_valid_literal_name,
}
use log_it_cpp.Format.Fields.{DateTime, Printer, LoggedRecord, field_text, base_name}
use log_it_cpp.Format.Formatter.{
  SimpleLogFormatter, set_pattern, set_timestamp_offset, format, format_as_json,
}
use log_it_cpp.Format.Formatter.Layouts.{layout_text}
use log_it_cpp.Format.Formatter.Render.{set_pattern_lem}
use log_it_cpp.Format.Formatter.Reader.{read_object}
use log_it_cpp.Format.Formatter.Objects.{first_member, other_members, read_object-format_as_json}

-- A date library for the first hour of the epoch.
abbrev epoch_hour : ℤ → DateTime
epoch_hour time = record {
  year_ = 1970;
  mon = 1;
  day_ = 1;
  hour_ = 0;
  min_ = pos_part time / 60000 % 60;
  sec = pos_part time / 1000 % 60;
  ms = pos_part time % 1000;
}

abbrev test_values : ValuePrinter ℕ
test_values = record {
  show_float = λ type_ d. show_nat d;
  printf = λ format v. format;
  fmt_format = λ format v. format;
}

abbrev test_printer : Printer ℕ
test_printer = record {
  values = test_values;
  show_thread = show_nat;
  seconds_of = λ time. pos (pos_part time / 1000);
  date_of = epoch_hour;
  month_name = λ full n. b'J' ∷ b'a' ∷ b'n' ∷ [];
  weekday_name = λ full dt. b'T' ∷ b'h' ∷ b'u' ∷ [];
}

-- A warning from "d/a.c" with two arguments, x of value 5 and the text "b".
abbrev warning : LoggedRecord ℕ
warning = record {
  entry = record {
    log_level = warn;
    timestamp_ms = pos 60000;
    file = b'd' ∷ b'/' ∷ b'a' ∷ b'.' ∷ b'c' ∷ [];
    line = pos 7;
    function = b'f' ∷ [];
    format = [];
    arg_names = b'x' ∷ b',' ∷ b'"' ∷ b'b' ∷ b'"' ∷ [];
    thread_id = 12;
    logger_index = negsuc 0;
    print_mode = false;
    fmt_mode = false;
    raw_mode = false;
  };
  args_array =
      variable (b'x' ∷ []) (integer int32 (pos 5))
      ∷ variable (b'"' ∷ b'b' ∷ b'"' ∷ []) (string_value string_type (b'b' ∷ []))
      ∷ [];
  context = none;
}

-- "%^%M%N(%fn) %-6l|%v%$"
abbrev short_layout : Layout
short_layout = colour true (
    field no_flags minute (
      fallback (field no_flags file_name done) (
        literal b' ' (
          field (record no_flags { width = 6; left_align = true }) log_level
            (literal b'|' (field no_flags message (colour false done)))))))

abbrev a_formatter : SimpleLogFormatter
a_formatter = record {
  config = record { pattern = []; json_format = false };
  compiled_instructions = [];
  offset_ms = pos 0;
}

set_pattern_lem_example :
    (g : SimpleLogFormatter) × (set_pattern a_formatter (print short_layout) false ≡ some g)
    × (format test_printer (set_timestamp_offset g (pos 120000)) warning
        ≡ layout_text test_printer warning
            (epoch_hour (pos 60000 +ℤ pos 120000))
            false
            short_layout)
unfolding clashes print spelling
set_pattern_lem_example =
    set_pattern_lem test_printer a_formatter short_layout (pos 120000) warning refl refl

read_object-format_as_json_example :
    read_object 9 (format_as_json test_printer warning ++ b'}' ∷ [])
    ≡ some (first_member test_printer warning ∷ other_members test_printer warning, b'}' ∷ [])
read_object-format_as_json_example = read_object-format_as_json test_printer warning (b'}' ∷ [])

-- The name of a number is written before it, that of a text is not.
message_test :
    field_text test_printer message [] [] warning (epoch_hour (pos 0))
    ≡ b'x' ∷ b':' ∷ b' ' ∷ b'5' ∷ b',' ∷ b' ' ∷ b'b' ∷ []
unfolding field_text message_text write_args write_plain value_text decimal is_valid_literal_name
message_test = refl

file_name_test :
    field_text test_printer file_name [] [] warning (epoch_hour (pos 0)) ≡ b'a' ∷ b'.' ∷ b'c' ∷ []
unfolding field_text base_name
file_name_test = refl

rendered_test :
    layout_text test_printer warning (epoch_hour (pos 180000)) true (
      field no_flags minute
        (literal b' ' (field (record no_flags { width = 6; left_align = true }) log_level done)))
    ≡ b'0' ∷ b'3' ∷ b' ' ∷ b'W' ∷ b'A' ∷ b'R' ∷ b'N' ∷ b' ' ∷ b' ' ∷ []
unfolding layout_text decimal remove_ansi_escape_codes strip_from
rendered_test = refl
