-- ===== src/Format/Formatter/Meanings.antt =====
-- SimpleLogFormatter: what each directive of a layout writes is what it stands for.
use log_it_cpp.Base.{
  ℕ, zero, suc, ◌+◌, ◌-◌, ◌/◌, ◌%◌, ◌≡◌, ◌<◌, refl, sym, ap, ◌∙◌, true, false, ◌||◌, Option, none,
  some, List, [], ◌∷◌, ◌++◌, append_assoc, append-nil, ltb, ◌==◌, if◌then◌else◌, if_elim, length,
  length-append, take, replicate, filter, inl, inr, Bool-cases, ltb→lt, arith,
}
use log_it_cpp.Base.Decimal.{show_nat, decimal, fill_left, length-decimal, length-decimal_le}
use log_it_cpp.Record.{Bytes, LogLevel, trace, debug, info, warn, error, fatal}
use log_it_cpp.Context.{Mdc, Snapshot, text_eq}
use log_it_cpp.Otlp.Json.{to_c_str}
use log_it_cpp.Format.Colors.{short_name, ansi_code, level_color, get_log_level_color}
use log_it_cpp.Format.Fields.{
  Printer, DateTime, LoggedRecord, field_text, two_digits, joined_by, base_name, mdc_text,
  find_value, mdc_value_text, ndc_text,
}
use log_it_cpp.Format.Formatter.Messages.{message_text-message_of}
use log_it_cpp.Format.Pattern.{
  FormatType, static_text, year, month, day, hour, minute, second, millisecond, two_digit_year,
  date_time, short_date, time_iso8601, date_iso8601, time_stamp, milli_second_time_stamp,
  abbreviated_month_name, full_month_name, abbreviated_weekday_name, full_weekday_name, log_level,
  short_log_level, file_name, full_file_name, source_file_and_line, line_number, function_name,
  thread_id, mapped_diagnostic_context, mapped_diagnostic_context_value, nested_diagnostic_context,
  start_color, end_color, message,
}
use log_it_cpp.Format.Formatter.Layouts.{meaning}
use log_it_cpp.Format.Formatter.Parts.{
  two, three, level_name, level_code, later_or, name_or, after_slash, each_after, listed, mdc_list,
  first_text, mdc_under, ndc_list,
}

one_digit : (n : ℕ) → ltb n 10 ≡ true → length (show_nat n) ≡ 1
unfolding decimal
one_digit n h = rw h refl

two_digits_least : (rounds n : ℕ) → ltb n 10 ≡ false → 1 < length (decimal (suc (suc rounds)) n)
unfolding decimal
two_digits_least rounds n h = rw h (
    omega (
      arith,
      length-append (decimal (suc rounds) (n / 10)) ((48 + n % 10) ∷ []),
      length-decimal rounds (n / 10),
    ))

three_digits_least :
    (rounds n : ℕ) → ltb n 100 ≡ false → 2 < length (decimal (suc (suc (suc rounds))) n)
unfolding decimal
three_digits_least rounds n h =
    let few : ltb n 10 ≡ false = ground (arith, h) in
    let front : ltb (n / 10) 10 ≡ false = ground (arith, h) in
    rw few (
      omega (
        arith,
        length-append (decimal (suc (suc rounds)) (n / 10)) ((48 + n % 10) ∷ []),
        two_digits_least rounds (n / 10) front,
      ))

two_long : (n : ℕ) → ltb n 10 ≡ false → 1 < length (show_nat n)
two_long zero h = absurd (ground (arith, h))
two_long (suc n) h = two_digits_least n (suc n) h

three_long : (n : ℕ) → ltb n 100 ≡ false → 2 < length (show_nat n)
three_long zero h = absurd (ground (arith, h))
three_long (suc zero) h = absurd (ground (arith, h))
three_long (suc (suc n)) h = three_digits_least n (suc (suc n)) h

fill_by :
    (fill width k : ℕ) (t : Bytes)
    → width - length t ≡ k
    → fill_left fill width t ≡ replicate k fill ++ t
fill_by fill width k t h = ap (λ n. replicate n fill ++ t) h

-- Numbers filled up to two digits.
fill_two :
    (fill n : ℕ)
    → fill_left fill 2 (show_nat n) ≡ (if ltb n 10 then fill ∷ show_nat n else show_nat n)
fill_two fill n =
    if_elim (λ t. fill_left fill 2 (show_nat n) ≡ t) (ltb n 10) (fill ∷ show_nat n) (show_nat n)
      (λ h. fill_by fill 2 1 (show_nat n) (omega (arith, one_digit n h)))
      (λ h. fill_by fill 2 0 (show_nat n) (omega (arith, two_long n h)))

fill_three : (n : ℕ) → fill_left b'0' 3 (show_nat n) ≡ three n
fill_three n =
    if_elim (λ t. fill_left b'0' 3 (show_nat n) ≡ t) (ltb n 10) (b'0' ∷ b'0' ∷ show_nat n)
      (if ltb n 100 then b'0' ∷ show_nat n else show_nat n)
      (λ h. fill_by b'0' 3 2 (show_nat n) (omega (arith, one_digit n h)))
      (λ h.
        if_elim (λ t. fill_left b'0' 3 (show_nat n) ≡ t) (ltb n 100) (b'0' ∷ show_nat n)
          (show_nat n)
          (λ k.
            fill_by b'0' 3 1 (show_nat n)
              (omega (arith, two_long n h, length-decimal_le 1 (suc n) n (ltb→lt n 100 k))))
          (λ k. fill_by b'0' 3 0 (show_nat n) (omega (arith, three_long n k))))

to_c_str-level_name : (level : LogLevel) → to_c_str level ≡ level_name level
to_c_str-level_name trace = refl
to_c_str-level_name debug = refl
to_c_str-level_name info = refl
to_c_str-level_name warn = refl
to_c_str-level_name error = refl
to_c_str-level_name fatal = refl

short_name-level_name : (level : LogLevel) → short_name level ≡ take 1 (level_name level)
unfolding short_name
short_name-level_name trace = refl
short_name-level_name debug = refl
short_name-level_name info = refl
short_name-level_name warn = refl
short_name-level_name error = refl
short_name-level_name fatal = refl

pub get_log_level_color-level_code :
    (level : LogLevel) → get_log_level_color level ≡ level_code level
unfolding get_log_level_color level_color ansi_code
get_log_level_color-level_code trace = refl
get_log_level_color-level_code debug = refl
get_log_level_color-level_code info = refl
get_log_level_color-level_code warn = refl
get_log_level_color-level_code error = refl
get_log_level_color-level_code fatal = refl

base_name-after_slash :
    (seen path : Bytes) → base_name seen path ≡ name_or (seen ++ path) (after_slash path)
unfolding base_name after_slash
base_name-after_slash seen [] = sym (append-nil seen)
base_name-after_slash seen (c ∷ path) = elim (Bool-cases (c == b'/' || c == b'\\')) [
  | inl h ↦ rw h (base_name-after_slash [] path ∙ at_slash (after_slash path))
  | inr h ↦ rw h (base_name-after_slash (seen ++ c ∷ []) path ∙ at_other (after_slash path))
]
  where
    at_slash :
        (o : Option Bytes) → name_or path o ≡ name_or (seen ++ c ∷ path) (later_or true path o)
    at_slash none = refl
    at_slash (some name) = refl

    at_other :
        (o : Option Bytes)
        → name_or ((seen ++ c ∷ []) ++ path) o ≡ name_or (seen ++ c ∷ path) (later_or false path o)
    at_other none = append_assoc seen (c ∷ []) path
    at_other (some name) = refl

joined_by-listed :
    (separator : Bytes) (texts : List Bytes) → joined_by separator texts ≡ listed separator texts
unfolding each_after
joined_by-listed separator [] = refl
joined_by-listed separator (a ∷ []) = sym (append-nil a)
joined_by-listed separator (a ∷ b ∷ texts) =
    ap (λ t. a ++ (separator ++ t)) (joined_by-listed separator (b ∷ texts))

mdc_text-mdc_list : (context : Option Snapshot) → mdc_text context ≡ mdc_list context
unfolding mdc_text
mdc_text-mdc_list none = refl
mdc_text-mdc_list (some s) = joined_by-listed (b' ' ∷ []) _

ndc_text-ndc_list : (context : Option Snapshot) → ndc_text context ≡ ndc_list context
unfolding ndc_text
ndc_text-ndc_list none = refl
ndc_text-ndc_list (some s) = joined_by-listed (b' ' ∷ b'>' ∷ b' ' ∷ []) s.ndc

find_value-first_text :
    (key : Bytes) (m : Mdc)
    → find_value key m ≡ first_text (filter (λ entry. text_eq entry.0 key) m)
unfolding find_value
find_value-first_text key [] = refl
find_value-first_text key (e ∷ m) = elim (Bool-cases (text_eq e.0 key)) [
  | inl h ↦ rw h
  | inr h ↦ rw h (find_value-first_text key m)
]

pub mdc_value_text-mdc_under :
    (key : Bytes) (context : Option Snapshot) → mdc_value_text key context ≡ mdc_under key context
unfolding mdc_value_text
mdc_value_text-mdc_under key none = refl
mdc_value_text-mdc_under key (some s) = find_value-first_text key s.mdc

two_digits-two : (n : ℕ) → two_digits n ≡ two n
two_digits-two n = fill_two b'0' n

module _ {D : Type 0} (printer : Printer D) (r : LoggedRecord D) (dt : DateTime) where
  -- The text of a directive is what it stands for.
  pub field_text-meaning :
      (type_ : FormatType) → field_text printer type_ [] [] r dt ≡ meaning printer r dt type_
  unfolding field_text
  field_text-meaning static_text = refl
  field_text-meaning year = refl
  field_text-meaning month = two_digits-two dt.mon
  field_text-meaning day = two_digits-two dt.day_
  field_text-meaning hour = two_digits-two dt.hour_
  field_text-meaning minute = two_digits-two dt.min_
  field_text-meaning second = two_digits-two dt.sec
  field_text-meaning millisecond = fill_three dt.ms
  field_text-meaning two_digit_year = two_digits-two (dt.year_ % 100)
  field_text-meaning date_time =
      rw
        (
          two_digits-two dt.hour_,
          two_digits-two dt.min_,
          two_digits-two dt.sec,
          fill_two b' ' dt.day_,
        )
        refl
  field_text-meaning short_date =
      rw (two_digits-two dt.mon, two_digits-two dt.day_, two_digits-two (dt.year_ % 100)) refl
  field_text-meaning time_iso8601 =
      rw (two_digits-two dt.hour_, two_digits-two dt.min_, two_digits-two dt.sec) refl
  field_text-meaning date_iso8601 = rw (two_digits-two dt.mon, two_digits-two dt.day_) refl
  field_text-meaning time_stamp = refl
  field_text-meaning milli_second_time_stamp = refl
  field_text-meaning abbreviated_month_name = refl
  field_text-meaning full_month_name = refl
  field_text-meaning abbreviated_weekday_name = refl
  field_text-meaning full_weekday_name = refl
  field_text-meaning log_level = to_c_str-level_name r.entry.log_level
  field_text-meaning short_log_level = short_name-level_name r.entry.log_level
  field_text-meaning file_name = base_name-after_slash [] r.entry.file
  field_text-meaning full_file_name = refl
  field_text-meaning source_file_and_line = refl
  field_text-meaning line_number = refl
  field_text-meaning function_name = refl
  field_text-meaning thread_id = refl
  field_text-meaning mapped_diagnostic_context = mdc_text-mdc_list r.context
  field_text-meaning mapped_diagnostic_context_value = mdc_value_text-mdc_under [] r.context
  field_text-meaning nested_diagnostic_context = ndc_text-ndc_list r.context
  field_text-meaning start_color = refl
  field_text-meaning end_color = refl
  field_text-meaning message = message_text-message_of printer r dt
