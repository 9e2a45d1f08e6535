-- ===== src/Otlp/Json.antt =====
-- loggers/otlp/OtlpJsonSerializer.hpp: a batch of log items as JSON, with
-- loggers/otlp/OtlpRecordSnapshot.hpp and loggers/otlp/OtlpJsonFormatConfig.hpp. How a stream prints a
-- number is a parameter; a double is of any type `D`.
pub mod Texts
pub mod Escape
mod Tests
use log_it_cpp.Base.{
  ℕ, ◌+◌, ◌-◌, ◌*◌, ◌/◌, ◌%◌, ◌^◌, Bool, true, false, not, ◌&&◌, ◌||◌, Option, none, some, List, [],
  ◌∷◌, ◌++◌, map, all, ltb, leb, ◌==◌, if◌then◌else◌, ℕ_discrete,
}
use log_it_cpp.Base.Ints.{ℤ, pos, negsuc}
use log_it_cpp.Base.Store.{Eq, find, put}
use log_it_cpp.Record.{Bytes, LogLevel, trace, debug, info, warn, error, fatal}
use log_it_cpp.Splitter.{is_empty}
use log_it_cpp.Otlp.Json.Texts.{
  key_start, string_value, int_value, bool_value, double_value, string_end, plain_end, text_true,
  text_false, time_start, severity_text, severity_number, body_start, attributes_start,
  attributes_end, file_key, line_key, function_key, thread_key, format_key, names_key, index_key,
  raw_key, print_key, fmt_key, payload_start, scope_start, payload_end, service_key, namespace_key,
  instance_key, environment_key,
}

abbrev pub hex_digit : ℕ → ℕ
hex_digit d = if ltb d 10 then 48 + d else 87 + d

-- The bytes of one byte.
unfoldable pub escape_byte : ℕ → Bytes
escape_byte c =
    if c == 34
    then 92 ∷ 34 ∷ []
    else if c == 92
    then 92 ∷ 92 ∷ []
    else if c == 8
    then 92 ∷ 98 ∷ []
    else if c == 12
    then 92 ∷ 102 ∷ []
    else if c == 10
    then 92 ∷ 110 ∷ []
    else if c == 13
    then 92 ∷ 114 ∷ []
    else if c == 9
    then 92 ∷ 116 ∷ []
    else if ltb c 32
    then 92 ∷ 117 ∷ 48 ∷ 48 ∷ hex_digit (c / 16 % 16) ∷ hex_digit (c % 16) ∷ []
    else c ∷ []

unfoldable pub otlp_json_escape : Bytes → Bytes
otlp_json_escape [] = []
otlp_json_escape (c ∷ value) = escape_byte c ++ otlp_json_escape value

abbrev pub otlp_severity_number : LogLevel → ℕ
otlp_severity_number trace = 1
otlp_severity_number debug = 5
otlp_severity_number info = 9
otlp_severity_number warn = 13
otlp_severity_number error = 17
otlp_severity_number fatal = 21

-- to_c_str(level).
abbrev pub to_c_str : LogLevel → Bytes
to_c_str trace = 84 ∷ 82 ∷ 65 ∷ 67 ∷ 69 ∷ []
to_c_str debug = 68 ∷ 69 ∷ 66 ∷ 85 ∷ 71 ∷ []
to_c_str info = 73 ∷ 78 ∷ 70 ∷ 79 ∷ []
to_c_str warn = 87 ∷ 65 ∷ 82 ∷ 78 ∷ []
to_c_str error = 69 ∷ 82 ∷ 82 ∷ 79 ∷ 82 ∷ []
to_c_str fatal = 70 ∷ 65 ∷ 84 ∷ 65 ∷ 76 ∷ []

-- A VariableValue by what the serializer does with its type: the signed and the unsigned integers
-- are widened to 64 bits, the floating ones to double; of every other type its to_string().
pub data ArgValue (D : Type 0) : Type 0 where
  boolean : Bool → ArgValue D
  signed : ℤ → ArgValue D
  unsigned : ℕ → ArgValue D
  floating : D → ArgValue D
  as_string : Bytes → ArgValue D

pub record Arg (D : Type 0) : Type 0 where
  pub name : Bytes
  pub value : ArgValue D

pub record OtlpRecordSnapshot (D : Type 0) : Type 0 where
  pub log_level : LogLevel
  pub timestamp_ms : ℤ
  pub file : Bytes
  pub line : ℤ
  pub function : Bytes
  pub format : Bytes
  pub arg_names : Bytes
  pub args_array : List (Arg D)
  pub thread_id : Bytes
  pub logger_index : ℤ
  pub print_mode : Bool
  pub fmt_mode : Bool
  pub raw_mode : Bool

pub record OtlpLogItem (D : Type 0) : Type 0 where
  pub snapshot : OtlpRecordSnapshot D
  pub message : Bytes

pub record FormatConfig : Type 0 where
  pub service_name : Bytes
  pub service_namespace : Bytes
  pub service_instance_id : Bytes
  pub deployment_environment : Bytes
  pub include_source : Bool
  pub include_thread_id : Bool
  pub include_format : Bool
  pub include_arg_names : Bool
  pub include_args : Bool
  pub args_prefix : Bytes

abbrev pub is_key_char : ℕ → Bool
is_key_char c =
    (leb 48 c && leb c 57)
    || (leb 65 c && leb c 90)
    || (leb 97 c && leb c 122)
    || c == 95
    || c == 46
    || c == 45

unfoldable pub sanitize_otlp_key : Bytes → Bytes
sanitize_otlp_key [] = []
sanitize_otlp_key (c ∷ name) = (if is_key_char c then c else 95) ∷ sanitize_otlp_key name

-- `timestamp_ms * 1000000LL`, for times that do not overflow.
abbrev pub to_nanoseconds : ℤ → ℤ
to_nanoseconds (pos n) = pos (n * 1000000)
to_nanoseconds (negsuc n) = negsuc (n * 1000000 + 999999)

-- A comma before each value but the first.
pub joined : List Bytes → Bytes
joined [] = []
joined (a ∷ []) = a
joined (a ∷ b ∷ rest) = a ++ 44 ∷ joined (b ∷ rest)

abbrev pub when_true : Bool → List Bytes → List Bytes
when_true true attrs = attrs
when_true false attrs = []

instance unfoldable pub bytes_eq : Eq Bytes
bytes_eq = record { dec = hlevel ℕ_discrete }

module _ {D : Type 0} (show_int : ℤ → Bytes) (show_nat : ℕ → Bytes) (is_finite : D → Bool)
    (show_double to_string_double : D → Bytes) where
  unfoldable pub write_string_attr : Bytes → Bytes → Bytes
  write_string_attr key value =
      key_start
      ++ (otlp_json_escape key ++ (string_value ++ (otlp_json_escape value ++ string_end)))

  pub write_int_attr : Bytes → ℤ → Bytes
  write_int_attr key value =
      key_start ++ otlp_json_escape key ++ int_value ++ show_int value ++ string_end

  pub write_bool_attr : Bytes → Bool → Bytes
  write_bool_attr key value =
      key_start
      ++ otlp_json_escape key
      ++ bool_value
      ++ (if value then text_true else text_false)
      ++ plain_end

  pub write_double_attr : Bytes → D → Bytes
  write_double_attr key value =
      if is_finite value
      then key_start ++ otlp_json_escape key ++ double_value ++ show_double value ++ plain_end
      else key_start
        ++ otlp_json_escape key
        ++ string_value
        ++ otlp_json_escape (to_string_double value)
        ++ string_end

  pub write_uint_attr : Bytes → ℕ → Bytes
  write_uint_attr key value =
      if ltb value (2 ^ 63)
      then write_int_attr key (pos value)
      else key_start ++ otlp_json_escape key ++ string_value ++ show_nat value ++ string_end

  -- The key of the argument at an index, before the counts.
  unfoldable pub first_key : Bytes → ℕ → Bytes → Bytes
  first_key prefix i name =
      let sanitized = sanitize_otlp_key name in
      if all (λ c. c == 95) sanitized then prefix ++ show_nat i else prefix ++ sanitized

  -- The key that is written, and the counts after it.
  unfoldable pub counted_key : Bytes → Option ℕ → List (Bytes × ℕ) → Bytes × List (Bytes × ℕ)
  counted_key key none counts = (key, put key 0 counts)
  counted_key key (some n) counts =
      let numbered = key ++ 46 ∷ show_nat (n + 1) in
      (numbered, put numbered 0 (put key (n + 1) counts))

  unfoldable pub write_arg : Bytes → ArgValue D → Bytes
  write_arg key (boolean b) = write_bool_attr key b
  write_arg key (signed z) = write_int_attr key z
  write_arg key (unsigned n) = write_uint_attr key n
  write_arg key (floating d) = write_double_attr key d
  write_arg key (as_string text) = write_string_attr key text

  unfoldable pub write_args : Bytes → ℕ → List (Bytes × ℕ) → List (Arg D) → List Bytes
  write_args prefix i counts [] = []
  write_args prefix i counts (arg ∷ args) =
      let key = first_key prefix i arg.name in
      let (written, after) = counted_key key (find key counts) counts in
      write_arg written arg.value ∷ write_args prefix (i + 1) after args

  -- The attributes of a record.
  pub attributes_of : OtlpRecordSnapshot D → FormatConfig → List Bytes
  attributes_of r config =
      when_true config.include_source (
        write_string_attr file_key r.file
        ∷ write_int_attr line_key r.line
        ∷ write_string_attr function_key r.function
        ∷ [])
      ++ when_true config.include_thread_id (write_string_attr thread_key r.thread_id ∷ [])
      ++ when_true config.include_format (write_string_attr format_key r.format ∷ [])
      ++ when_true (config.include_arg_names && not (is_empty r.arg_names))
          (write_string_attr names_key r.arg_names ∷ [])
      ++ when_true config.include_args (write_args config.args_prefix 0 [] r.args_array)
      ++ write_int_attr index_key r.logger_index
        ∷ write_bool_attr raw_key r.raw_mode
        ∷ write_bool_attr print_key r.print_mode
        ∷ write_bool_attr fmt_key r.fmt_mode
        ∷ []

  pub write_log_record_json : OtlpLogItem D → FormatConfig → Bytes
  write_log_record_json item config =
      let r = item.snapshot in
      time_start
      ++ show_int (to_nanoseconds r.timestamp_ms)
      ++ severity_text
      ++ otlp_json_escape (to_c_str r.log_level)
      ++ severity_number
      ++ show_nat (otlp_severity_number r.log_level)
      ++ body_start
      ++ otlp_json_escape item.message
      ++ attributes_start
      ++ joined (attributes_of r config)
      ++ attributes_end

  pub build_payload : FormatConfig → List (OtlpLogItem D) → Bytes
  build_payload config batch =
      payload_start
      ++ joined (
          write_string_attr service_key config.service_name
          ∷ (when_true (not (is_empty config.service_namespace))
                (write_string_attr namespace_key config.service_namespace ∷ [])
              ++ when_true (not (is_empty config.service_instance_id))
                  (write_string_attr instance_key config.service_instance_id ∷ [])
              ++ when_true (not (is_empty config.deployment_environment))
                  (write_string_attr environment_key config.deployment_environment ∷ [])))
      ++ scope_start
      ++ joined (map (λ item. write_log_record_json item config) batch)
      ++ payload_end
