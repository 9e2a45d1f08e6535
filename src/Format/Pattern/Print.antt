-- ===== src/Format/Pattern/Print.antt =====
-- Patterns as trees, independent of the compiler: how one is written, and the instructions it stands
-- for.
use log_it_cpp.Base.{
  ℕ, suc, Bool, true, false, ◌&&◌, not, List, [], ◌∷◌, ◌++◌, ◌==◌, if◌then◌else◌, all,
}
use log_it_cpp.Base.Decimal.{decimal}
use log_it_cpp.Record.{Bytes}
use log_it_cpp.Format.Pattern.{
  CompileContext, no_args_fallback, FormatType, static_text, year, month, day, hour, minute, second,
  millisecond, two_digit_year, date_time, short_date, time_iso8601, date_iso8601, time_stamp,
  milli_second_time_stamp, abbreviated_month_name, full_month_name, abbreviated_weekday_name,
  full_weekday_name, log_level, short_log_level, file_name, full_file_name, source_file_and_line,
  line_number, function_name, thread_id, mapped_diagnostic_context, mapped_diagnostic_context_value,
  nested_diagnostic_context, start_color, end_color, message, FormatInstruction, Flags, no_flags,
  instruction, starts, flush,
}

-- A byte of text, a percent sign, a field, a key of the diagnostic context, a colour begun or ended,
-- escape codes stripped from here on or kept, and a pattern for calls without arguments.
pub data Layout : Type 0 where
  done : Layout
  literal : ℕ → Layout → Layout
  percent : Layout → Layout
  field : Flags → FormatType → Layout → Layout
  keyed : Flags → Bytes → Layout → Layout
  colour : Bool → Layout → Layout
  stripping : Bool → Layout → Layout
  fallback : Layout → Layout → Layout

abbrev pub when : Bool → ℕ → Bytes
when b c = if b then c ∷ [] else []

-- A width of 0 is written only before the '!' of truncation.
abbrev pub print_width : Flags → Bytes
print_width f = if f.width == 0 && not f.truncate then [] else decimal (suc f.width) f.width

abbrev pub print_options : Flags → Bytes
print_options f = when f.left_align b'-' ++ (when f.center_align b'=' ++ print_width f)

abbrev pub print_flags : Flags → Bytes
print_flags f = print_options f ++ when f.truncate b'!'

-- Fields are the types with a letter of their own; the others have no spelling.
unfoldable pub spelling : FormatType → Bytes
spelling year = b'Y' ∷ []
spelling month = b'm' ∷ []
spelling day = b'd' ∷ []
spelling hour = b'H' ∷ []
spelling minute = b'M' ∷ []
spelling second = b'S' ∷ []
spelling millisecond = b'e' ∷ []
spelling two_digit_year = b'C' ∷ []
spelling date_time = b'c' ∷ []
spelling short_date = b'D' ∷ []
spelling time_iso8601 = b'T' ∷ []
spelling date_iso8601 = b'F' ∷ []
spelling time_stamp = b's' ∷ []
spelling milli_second_time_stamp = b'm' ∷ b's' ∷ []
spelling abbreviated_month_name = b'b' ∷ []
spelling full_month_name = b'B' ∷ []
spelling abbreviated_weekday_name = b'a' ∷ []
spelling full_weekday_name = b'A' ∷ []
spelling log_level = b'l' ∷ []
spelling short_log_level = b'L' ∷ []
spelling file_name = b'f' ∷ b'n' ∷ []
spelling full_file_name = b'f' ∷ b'f' ∷ b'n' ∷ []
spelling source_file_and_line = b'@' ∷ []
spelling line_number = b'#' ∷ []
spelling function_name = b'!' ∷ []
spelling thread_id = b't' ∷ []
spelling mapped_diagnostic_context = b'K' ∷ []
spelling nested_diagnostic_context = b'J' ∷ []
spelling message = b'v' ∷ []
spelling static_text = []
spelling mapped_diagnostic_context_value = []
spelling start_color = []
spelling end_color = []

abbrev pub is_field : FormatType → Bool
is_field static_text = false
is_field mapped_diagnostic_context_value = false
is_field start_color = false
is_field end_color = false
is_field _ = true

-- Would the type's letter and the text after it be read as another directive?
unfoldable pub clashes : FormatType → Bytes → Bool
clashes month t = starts b's' t
clashes second t = starts b'C' t
clashes millisecond t = starts b'c' t
clashes time_stamp t = starts b'c' t
clashes abbreviated_month_name t = starts b's' t
clashes mapped_diagnostic_context t = starts b'{' t
clashes _ t = false

-- A width before the letter '!' would be read as truncation.
abbrev pub is_plain : Flags → Bool
is_plain f = not f.left_align && not f.center_align && f.width == 0

abbrev pub is_function : FormatType → Bool
is_function function_name = true
is_function _ = false

unfoldable pub print : Layout → Bytes
print done = []
print (literal c p) = c ∷ print p
print (percent p) = b'%' ∷ b'%' ∷ print p
print (field f type_ p) = b'%' ∷ (print_flags f ++ (spelling type_ ++ print p))
print (keyed f key p) = b'%' ∷ (print_flags f ++ b'K' ∷ b'{' ∷ (key ++ b'}' ∷ print p))
print (colour begin p) = b'%' ∷ (if begin then b'^' else b'$') ∷ print p
print (stripping on p) = b'%' ∷ (if on then b'S' else b'E') ∷ b'C' ∷ print p
print (fallback q p) = b'%' ∷ b'N' ∷ b'(' ∷ (print q ++ b')' ∷ print p)

-- The instructions, where `buffer` is the text since the last of them.
unfoldable pub instructions : CompileContext → Layout → Bytes → Bool → List FormatInstruction
instructions context done buffer strip = flush context buffer strip
instructions context (literal c p) buffer strip = instructions context p (buffer ++ c ∷ []) strip
instructions context (percent p) buffer strip =
    flush context buffer strip ++ instructions context p (b'%' ∷ []) strip
instructions context (field f type_ p) buffer strip =
    flush context buffer strip
    ++ instruction context type_ f strip [] ∷ instructions context p [] strip
instructions context (keyed f key p) buffer strip =
    flush context buffer strip
    ++ instruction context mapped_diagnostic_context_value f strip key
      ∷ instructions context p [] strip
instructions context (colour begin p) buffer strip =
    flush context buffer strip
    ++ instruction context (if begin then start_color else end_color) no_flags strip []
      ∷ instructions context p [] strip
instructions context (stripping on p) buffer strip =
    flush context buffer strip ++ instructions context p [] on
instructions context (fallback q p) buffer strip =
    flush context buffer strip
    ++ (instructions no_args_fallback q [] false ++ instructions context p [] strip)

-- The layout can be told from its text: text is not a percent sign, no letter runs into the text
-- after it, and keys and nested patterns do not hold their closing bracket.
abbrev pub is_readable : Layout → Bool
is_readable done = true
is_readable (literal c p) = not (c == b'%') && is_readable p
is_readable (percent p) = is_readable p
is_readable (field f type_ p) =
    is_field type_
    && (not (is_function type_ && not (is_plain f) && not f.truncate)
        && (not (clashes type_ (print p)) && is_readable p))
is_readable (keyed f key p) = all (λ c. not (c == b'}')) key && is_readable p
is_readable (colour begin p) = is_readable p
is_readable (stripping on p) = is_readable p
is_readable (fallback q p) =
    all (λ c. not (c == b')')) (print q) && (is_readable q && is_readable p)
