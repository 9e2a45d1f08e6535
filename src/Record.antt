-- ===== src/Record.antt =====
-- The data that every backend receives or returns: enums.hpp (levels), utils/LogRecord.hpp,
-- utils/BufferedLogEntry.hpp and loggers/ILogReader.hpp. A text is its list of bytes.
-- `args_array` and `context` of a record are in Format.Fields, beside the formatter that reads them.
use log_it_cpp.Base.{ℕ, Bool, List}
use log_it_cpp.Base.Ints.{ℤ}

abbrev pub Bytes : Type 0
Bytes = List ℕ

pub data LogLevel : Type 0 where
  trace debug info warn error fatal : LogLevel

-- `static_cast<int>(level)`.
abbrev pub level_index : LogLevel → ℕ
level_index trace = 0
level_index debug = 1
level_index info = 2
level_index warn = 3
level_index error = 4
level_index fatal = 5

pub record LogRecord : Type 0 where
  pub log_level : LogLevel
  pub timestamp_ms : ℤ
  pub file : Bytes
  pub line : ℤ
  pub function : Bytes
  pub format : Bytes
  pub arg_names : Bytes
  pub thread_id : ℕ
  pub logger_index : ℤ
  pub print_mode : Bool
  pub fmt_mode : Bool
  pub raw_mode : Bool

pub record BufferedLogEntry : Type 0 where
  pub level : LogLevel
  pub timestamp_ms : ℤ
  pub file : Bytes
  pub line : ℤ
  pub function : Bytes
  pub message : Bytes

pub record LogRecordSnapshot : Type 0 where
  pub session_id : ℕ
  pub timestamp_ms : ℤ
  pub sequence : ℕ
  pub level : LogLevel
  pub message : Bytes
  pub payload_id : ℕ
  pub file : Bytes
  pub function : Bytes
  pub line : ℤ

pub data LogReadOrder : Type 0 where
  ascending descending : LogReadOrder
