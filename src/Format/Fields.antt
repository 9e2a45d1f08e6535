-- ===== src/Format/Fields.antt =====
-- formatter/compiler/PatternCompiler.hpp: FormatInstruction::apply; formatter/SimpleLogFormatter.hpp:
-- patterns. The date library is a parameter, and so are the stream's text of a thread and, as in
-- Values, that of one value. Times are far from the ends of int64, and years are not negative.
use log_it_cpp.Base.{
  ℕ, ◌%◌, Bool, true, false, ◌||◌, Option, none, some, List, [], ◌∷◌, ◌++◌, map, ◌==◌,
  if◌then◌else◌,
}
use log_it_cpp.Base.Ints.{ℤ, ◌+ℤ◌}
use log_it_cpp.Base.Decimal.{show_nat, show_int, fill_left}
use log_it_cpp.Record.{Bytes, LogRecord}
use log_it_cpp.Context.{Mdc, Snapshot, text_eq}
use log_it_cpp.Otlp.Json.{to_c_str}
use log_it_cpp.Format.{Alignment, left, center, right, write_field}
use log_it_cpp.Format.Colors.{short_name, ansi_code, default_color, get_log_level_color}
use log_it_cpp.Format.Values.{ValuePrinter, VariableValue, message_text}
use log_it_cpp.Format.Pattern.{
  CompileContext, default, no_args_fallback, FormatType, static_text, year, month, day, hour,
  minute, second, millisecond, two_digit_year, date_time, short_date, time_iso8601, date_iso8601,
  time_stamp, milli_second_time_stamp, abbreviated_month_name, full_month_name,
  abbreviated_weekday_name, full_weekday_name, log_level, short_log_level, file_name,
  full_file_name, source_file_and_line, line_number, function_name, thread_id,
  mapped_diagnostic_context, mapped_diagnostic_context_value, nested_diagnostic_context,
  start_color, end_color, message, Flags, FormatInstruction,
}

-- The fields of time_shield::DateTimeStruct that are read.
pub record DateTime : Type 0 where
  pub year_ : ℕ
  pub mon : ℕ
  pub day_ : ℕ
  pub hour_ : ℕ
  pub min_ : ℕ
  pub sec : ℕ
  pub ms : ℕ

-- A record with its args_array and its context, which is null without LOGIT_WITH_CONTEXT. The
-- entries of the map are in the order of the map.
pub record LoggedRecord (D : Type 0) : Type 0 where
  pub entry : LogRecord
  pub args_array : List (VariableValue D)
  pub context : Option Snapshot

abbrev pub two_digits : ℕ → Bytes
two_digits n = fill_left b'0' 2 (show_nat n)

-- The loops that write a separator before each text but the first.
abbrev pub joined_by : Bytes → List Bytes → Bytes
joined_by separator [] = []
joined_by separator (a ∷ []) = a
joined_by separator (a ∷ b ∷ rest) = a ++ (separator ++ joined_by separator (b ∷ rest))

-- The text after the last slash, of either kind.
unfoldable pub base_name : Bytes → Bytes → Bytes
base_name seen [] = seen
base_name seen (c ∷ path) =
    let after = base_name [] path in
    let more = base_name (seen ++ c ∷ []) path in if c == b'/' || c == b'\\' then after else more

abbrev pub entry_text : Bytes × Bytes → Bytes
entry_text (key, value) = key ++ b'=' ∷ value

unfoldable pub mdc_text : Option Snapshot → Bytes
mdc_text none = []
mdc_text (some s) = joined_by (b' ' ∷ []) (map entry_text s.mdc)

unfoldable pub find_value : Bytes → Mdc → Bytes
find_value key [] = []
find_value key (e ∷ m) = let rest = find_value key m in if text_eq e.0 key then e.1 else rest

unfoldable pub mdc_value_text : Bytes → Option Snapshot → Bytes
mdc_value_text key none = []
mdc_value_text key (some s) = find_value key s.mdc

unfoldable pub ndc_text : Option Snapshot → Bytes
ndc_text none = []
ndc_text (some s) = joined_by (b' ' ∷ b'>' ∷ b' ' ∷ []) s.ndc

abbrev pub is_name : FormatType → Bool
is_name file_name = true
is_name full_file_name = true
is_name source_file_and_line = true
is_name function_name = true
is_name _ = false

abbrev pub alignment_of : Flags → Alignment
alignment_of f = if f.left_align then left else if f.center_align then center else right

-- An instruction for calls without arguments is skipped for a record with a format or arguments.
unfoldable pub is_skipped : {D : Type 0} → CompileContext → LoggedRecord D → Bool
is_skipped default r = false
is_skipped no_args_fallback r = elim r.entry.format [
  | [] ↦ elim r.args_array [ [] ↦ false | a ∷ args ↦ true ]
  | c ∷ format ↦ true
]

-- `date_of` is to_date_time_ms, `seconds_of` ms_to_sec; names are in full (true) or short.
pub record Printer (D : Type 0) : Type 0 where
  pub values : ValuePrinter D
  pub show_thread : ℕ → Bytes
  pub seconds_of : ℤ → ℤ
  pub date_of : ℤ → DateTime
  pub month_name : Bool → ℕ → Bytes
  pub weekday_name : Bool → DateTime → Bytes

module _ {D : Type 0} (printer : Printer D) where
  -- `temp_stream`.
  unfoldable pub field_text : FormatType → Bytes → Bytes → LoggedRecord D → DateTime → Bytes
  field_text static_text text key r dt = text
  field_text year text key r dt = show_nat dt.year_
  field_text month text key r dt = two_digits dt.mon
  field_text day text key r dt = two_digits dt.day_
  field_text hour text key r dt = two_digits dt.hour_
  field_text minute text key r dt = two_digits dt.min_
  field_text second text key r dt = two_digits dt.sec
  field_text millisecond text key r dt = fill_left b'0' 3 (show_nat dt.ms)
  field_text two_digit_year text key r dt = two_digits (dt.year_ % 100)
  field_text date_time text key r dt =
      printer.weekday_name false dt
      ++ b' '
        ∷ (printer.month_name false dt.mon
            ++ b' '
              ∷ (fill_left b' ' 2 (show_nat dt.day_)
                  ++ b' '
                    ∷ (two_digits dt.hour_
                        ++ b':'
                          ∷ (two_digits dt.min_
                              ++ b':' ∷ (two_digits dt.sec ++ b' ' ∷ show_nat dt.year_)))))
  field_text short_date text key r dt =
      two_digits dt.mon ++ b'/' ∷ (two_digits dt.day_ ++ b'/' ∷ two_digits (dt.year_ % 100))
  field_text time_iso8601 text key r dt =
      two_digits dt.hour_ ++ b':' ∷ (two_digits dt.min_ ++ b':' ∷ two_digits dt.sec)
  field_text date_iso8601 text key r dt =
      show_nat dt.year_ ++ b'-' ∷ (two_digits dt.mon ++ b'-' ∷ two_digits dt.day_)
  field_text time_stamp text key r dt = show_int (printer.seconds_of r.entry.timestamp_ms)
  field_text milli_second_time_stamp text key r dt = show_int r.entry.timestamp_ms
  field_text abbreviated_month_name text key r dt = printer.month_name false dt.mon
  field_text full_month_name text key r dt = printer.month_name true dt.mon
  field_text abbreviated_weekday_name text key r dt = printer.weekday_name false dt
  field_text full_weekday_name text key r dt = printer.weekday_name true dt
  field_text log_level text key r dt = to_c_str r.entry.log_level
  field_text short_log_level text key r dt = short_name r.entry.log_level
  field_text file_name text key r dt = base_name [] r.entry.file
  field_text full_file_name text key r dt = r.entry.file
  field_text source_file_and_line text key r dt = r.entry.file ++ b':' ∷ show_int r.entry.line
  field_text line_number text key r dt = show_int r.entry.line
  field_text function_name text key r dt = r.entry.function
  field_text thread_id text key r dt = printer.show_thread r.entry.thread_id
  field_text mapped_diagnostic_context text key r dt = mdc_text r.context
  field_text mapped_diagnostic_context_value text key r dt = mdc_value_text key r.context
  field_text nested_diagnostic_context text key r dt = ndc_text r.context
  field_text start_color text key r dt = []
  field_text end_color text key r dt = []
  field_text message text key r dt = message_text printer.values r.entry r.args_array

  -- What the cases of the colours write to the output itself.
  unfoldable pub color_text : FormatType → Bool → LoggedRecord D → Bytes
  color_text start_color strip_ansi r =
      if strip_ansi then [] else get_log_level_color r.entry.log_level
  color_text end_color strip_ansi r = if strip_ansi then [] else ansi_code default_color
  color_text _ strip_ansi r = []

  -- What `apply` adds to the output.
  unfoldable pub apply : FormatInstruction → LoggedRecord D → DateTime → Bytes
  apply i r dt =
      if is_skipped i.context r
      then []
      else color_text i.type_ i.strip_ansi r
        ++ write_field i.strip_ansi i.flags.truncate (is_name i.type_) (alignment_of i.flags)
            i.flags.width (field_text i.type_ i.text i.context_key r dt)

  unfoldable pub apply_all : List FormatInstruction → LoggedRecord D → DateTime → Bytes
  apply_all [] r dt = []
  apply_all (i ∷ instructions) r dt = apply i r dt ++ apply_all instructions r dt

  unfoldable pub format_as_pattern : List FormatInstruction → ℤ → LoggedRecord D → Bytes
  format_as_pattern instructions offset_ms r =
      apply_all instructions r (printer.date_of (r.entry.timestamp_ms +ℤ offset_ms))
