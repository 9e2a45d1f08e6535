-- ===== src/Format/Formatter/Layouts.antt =====
-- SimpleLogFormatter: what each directive of a layout stands for, written down apart from the code. The
-- text of one value and the digits of a number are taken from the model of the code.
use log_it_cpp.Base.{
  ◌%◌, Bool, true, false, ◌&&◌, ◌||◌, not, List, [], ◌∷◌, ◌++◌, map, ltb, if◌then◌else◌, length,
  take,
}
use log_it_cpp.Base.Decimal.{show_nat, show_int}
use log_it_cpp.Record.{Bytes}
use log_it_cpp.Format.Pattern.{
  FormatType, static_text, year, month, day, hour, minute, second, millisecond, two_digit_year,
  date_time, short_date, time_iso8601, date_iso8601, time_stamp, milli_second_time_stamp,
  abbreviated_month_name, full_month_name, abbreviated_weekday_name, full_weekday_name, log_level,
  short_log_level, file_name, full_file_name, source_file_and_line, line_number, function_name,
  thread_id, mapped_diagnostic_context, mapped_diagnostic_context_value, nested_diagnostic_context,
  start_color, end_color, message,
}
use log_it_cpp.Format.Pattern.Print.{
  Layout, done, literal, percent, field, keyed, colour, stripping, fallback,
}
use log_it_cpp.Format.Values.{VariableValue, value_text, formatted_text}
use log_it_cpp.Format.Fields.{Printer, DateTime, LoggedRecord}
use log_it_cpp.Format.Formatter.Parts.{
  two, three, blank_two, level_name, level_code, normal_code, name_in, listed, mdc_list, mdc_under,
  ndc_list, is_nameless, is_named_literal, is_number_like, with_name, holds_name, fitted,
}

module _ {D : Type 0} (printer : Printer D) (r : LoggedRecord D) (dt : DateTime) where
  abbrev pub plain_argument : VariableValue D → Bytes
  plain_argument arg =
      with_name
        (not r.entry.print_mode
          && not (is_nameless arg.value)
          && (arg.is_literal || not (is_named_literal arg.value)))
        arg (value_text printer.values arg.value)

  abbrev pub formatted_argument : VariableValue D → Bytes
  formatted_argument arg =
      with_name (arg.is_literal && is_number_like arg.value) arg
        (formatted_text printer.values r.entry.fmt_mode r.entry.format arg.value)

  -- The arguments one after another, with commas unless they are printed; or the format as it is.
  abbrev pub message_of : Bytes → List (VariableValue D) → Bytes
  message_of [] args =
      listed (if r.entry.print_mode then [] else b',' ∷ b' ' ∷ []) (map plain_argument args)
  message_of (c ∷ format) [] = c ∷ format
  message_of (c ∷ format) (arg ∷ args) =
      listed (if r.entry.print_mode then [] else b',' ∷ b' ' ∷ [])
        (map formatted_argument (arg ∷ args))

  -- hh:mm:ss
  abbrev pub clock : Bytes
  clock = two dt.hour_ ++ b':' ∷ (two dt.min_ ++ b':' ∷ two dt.sec)

  -- What a directive without a key stands for.
  abbrev pub meaning : FormatType → Bytes
  meaning static_text = []
  meaning year = show_nat dt.year_
  meaning month = two dt.mon
  meaning day = two dt.day_
  meaning hour = two dt.hour_
  meaning minute = two dt.min_
  meaning second = two dt.sec
  meaning millisecond = three dt.ms
  meaning two_digit_year = two (dt.year_ % 100)
  meaning date_time =
      printer.weekday_name false dt
      ++ b' '
        ∷ (printer.month_name false dt.mon
            ++ b' '
              ∷ (blank_two dt.day_
                  ++ b' '
                    ∷ (two dt.hour_
                        ++ b':'
                          ∷ (two dt.min_ ++ b':' ∷ (two dt.sec ++ b' ' ∷ show_nat dt.year_)))))
  meaning short_date = two dt.mon ++ b'/' ∷ (two dt.day_ ++ b'/' ∷ two (dt.year_ % 100))
  meaning time_iso8601 = clock
  meaning date_iso8601 = show_nat dt.year_ ++ b'-' ∷ (two dt.mon ++ b'-' ∷ two dt.day_)
  meaning time_stamp = show_int (printer.seconds_of r.entry.timestamp_ms)
  meaning milli_second_time_stamp = show_int r.entry.timestamp_ms
  meaning abbreviated_month_name = printer.month_name false dt.mon
  meaning full_month_name = printer.month_name true dt.mon
  meaning abbreviated_weekday_name = printer.weekday_name false dt
  meaning full_weekday_name = printer.weekday_name true dt
  meaning log_level = level_name r.entry.log_level
  meaning short_log_level = take 1 (level_name r.entry.log_level)
  meaning file_name = name_in r.entry.file
  meaning full_file_name = r.entry.file
  meaning source_file_and_line = r.entry.file ++ b':' ∷ show_int r.entry.line
  meaning line_number = show_int r.entry.line
  meaning function_name = r.entry.function
  meaning thread_id = printer.show_thread r.entry.thread_id
  meaning mapped_diagnostic_context = mdc_list r.context
  meaning mapped_diagnostic_context_value = mdc_under [] r.context
  meaning nested_diagnostic_context = ndc_list r.context
  meaning start_color = []
  meaning end_color = []
  meaning message = message_of r.entry.format r.args_array

  -- What is written for a layout: its text, and its fields, fitted to their widths, with escape codes
  -- stripped or kept. What it has for calls without arguments is left out for a record with a format or
  -- arguments.
  unfoldable pub layout_text : Bool → Layout → Bytes
  layout_text strip done = []
  layout_text strip (literal c p) = c ∷ layout_text strip p
  layout_text strip (percent p) = b'%' ∷ layout_text strip p
  layout_text strip (field f type_ p) =
      fitted strip f (holds_name type_) (meaning type_) ++ layout_text strip p
  layout_text strip (keyed f key p) =
      fitted strip f false (mdc_under key r.context) ++ layout_text strip p
  layout_text strip (colour begin p) =
      (if strip then [] else if begin then level_code r.entry.log_level else normal_code)
      ++ layout_text strip p
  layout_text strip (stripping on p) = layout_text on p
  layout_text strip (fallback q p) =
      (if ltb 0 (length r.entry.format) || ltb 0 (length r.args_array)
        then []
        else layout_text false q)
      ++ layout_text strip p
