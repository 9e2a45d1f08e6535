-- ===== src/Logger.antt =====
-- Logger.hpp: the registry of backends and what it sends them; loggers/ILogger.hpp and
-- formatter/ILogFormatter.hpp are its interfaces. `B` is any backend and `F` any formatter of the
-- registry. Each call is one step: what another thread does comes before or after it. The snapshot
-- of the registry is published in the critical section that changes the registry, so between calls
-- it is the registry itself. A backend pointer is not null. Formatting the arguments of a call
-- (print, log_and_return) is not in the model.
pub mod Clear
pub mod Reads
pub mod Dispatch
pub mod Calls
pub mod Clearing
mod Tests
use log_it_cpp.Base.{
  ℕ, zero, suc, ◌+◌, Bool, true, false, not, ◌&&◌, ◌||◌, Option, none, some, List, [], ◌∷◌, ◌++◌,
  map, ltb, ◌==◌, if◌then◌else◌, get_elem?,
}
use log_it_cpp.Base.Ints.{ℤ, pos, negsuc}
use log_it_cpp.Base.Words.{add_size}
use log_it_cpp.Record.{Bytes, LogLevel, level_index, LogRecord, BufferedLogEntry}

pub record LogClearOptions : Type 0 where
  pub include_persistent_records : Bool
  pub include_payloads : Bool
  pub include_sessions : Bool

pub data LogClearStatus : Type 0 where
  cleared unsupported failed : LogClearStatus

-- `is_ok` is the field `ok`.
pub record LogClearResult : Type 0 where
  pub is_ok : Bool
  pub status : LogClearStatus
  pub cleared_records : ℕ
  pub message : Bytes

pub record LogFileInfo : Type 0 where
  pub path : Bytes
  pub name : Bytes
  pub day_start_ms : ℤ
  pub is_current : Bool
  pub is_compressed : Bool

pub record LogFileReadResult : Type 0 where
  pub file : LogFileInfo
  pub content : Bytes
  pub is_ok : Bool

pub data LoggerParam : Type 0 where
  last_file_name last_file_path last_log_timestamp time_since_last_log dropped_log_count
        failed_export_count :
      LoggerParam

pub record ILogger (B : Type 0) : Type 0 where
  pub log_to : B → LogRecord → Bytes → B
  pub level_of : B → LogLevel
  pub with_level : B → LogLevel → B
  pub wait_for : B → B
  pub shut : B → B
  pub clear : B → LogClearOptions → B × LogClearResult
  pub string_param_of : B → LoggerParam → Bytes
  pub int_param_of : B → LoggerParam → ℤ
  pub strings_of : B → List Bytes
  pub entries_of : B → List BufferedLogEntry
  pub files_of : B → List LogFileInfo
  pub read_file : B → Bytes → LogFileReadResult
  pub read_files : B → List Bytes → List LogFileReadResult

pub record ILogFormatter (F : Type 0) : Type 0 where
  pub format_of : F → LogRecord → Bytes
  pub is_passthrough : F → Bool
  pub with_offset : F → ℤ → F

-- `concurrent_dispatch` and the mutex only choose the lock; a formatter may be null.
pub record LoggerStrategy (B F : Type 0) : Type 0 where
  pub logger : B
  pub formatter : Option F
  pub single_mode : Bool
  pub enabled : Bool

-- `executor_stopped` tells whether the shared TaskExecutor was shut down.
pub record Logger (B F : Type 0) : Type 0 where
  pub loggers : List (LoggerStrategy B F)
  pub is_shutdown : Bool
  pub executor_stopped : Bool

module _ {B F : Type 0} where
  -- `(*strategies)[i]`, with the tests of the index.
  abbrev pub strategy_at : List (LoggerStrategy B F) → ℤ → Option (LoggerStrategy B F)
  strategy_at loggers (pos i) = get_elem? loggers i
  strategy_at loggers (negsuc i) = none

  abbrev pub change_nth :
      (LoggerStrategy B F → LoggerStrategy B F)
      → List (LoggerStrategy B F)
      → ℕ
      → List (LoggerStrategy B F)
  change_nth f [] i = []
  change_nth f (st ∷ loggers) zero = f st ∷ loggers
  change_nth f (st ∷ loggers) (suc i) = st ∷ change_nth f loggers i

  abbrev pub change_at :
      (LoggerStrategy B F → LoggerStrategy B F)
      → List (LoggerStrategy B F)
      → ℤ
      → List (LoggerStrategy B F)
  change_at f loggers (pos i) = change_nth f loggers i
  change_at f loggers (negsuc i) = loggers

  -- A call that changes one strategy, unless the system is shut down.
  abbrev pub change : (LoggerStrategy B F → LoggerStrategy B F) → ℤ → Logger B F → Logger B F
  change f index s = if s.is_shutdown then s else record s { loggers = change_at f s.loggers index }

  pub new_logger : Logger B F
  new_logger = record { loggers = []; is_shutdown = false; executor_stopped = false }

  pub add_logger : B → Option F → Bool → Logger B F → Logger B F
  add_logger logger formatter single_mode s = if s.is_shutdown then s else record s {
    loggers =
        s.loggers
        ++ record {
          logger = logger;
          formatter = formatter;
          single_mode = single_mode;
          enabled = true;
        }
          ∷ [];
  }

  pub set_logger_enabled : ℤ → Bool → Logger B F → Logger B F
  set_logger_enabled index enabled s = change (λ st. record st { enabled = enabled }) index s

  pub set_logger_single_mode : ℤ → Bool → Logger B F → Logger B F
  set_logger_single_mode index single_mode s =
      change (λ st. record st { single_mode = single_mode }) index s

  pub is_logger_enabled : ℤ → Logger B F → Bool
  is_logger_enabled index s = elim (strategy_at s.loggers index) [
    | none ↦ false
    | some st ↦ st.enabled
  ]

  pub is_logger_single_mode : ℤ → Logger B F → Bool
  is_logger_single_mode index s =
      if s.is_shutdown
      then false
      else elim (strategy_at s.loggers index) [ none ↦ false | some st ↦ st.single_mode ]

module _ {B F : Type 0} (api : ILogger B) (formats : ILogFormatter F) where
  -- A logger that was added without a formatter, where the code would follow a null pointer, stays
  -- as it is.
  pub set_timestamp_offset : ℤ → ℤ → Logger B F → Logger B F
  set_timestamp_offset index offset_ms s =
      change
        (λ st. record st {
          formatter = elim st.formatter [
            | none ↦ none
            | some f ↦ some (formats.with_offset f offset_ms)
          ];
        })
        index s

  abbrev pub with_log_level : LogLevel → LoggerStrategy B F → LoggerStrategy B F
  with_log_level level st = record st { logger = api.with_level st.logger level }

  -- set_log_level(level).
  pub set_log_level_all : LogLevel → Logger B F → Logger B F
  set_log_level_all level s =
      if s.is_shutdown then s else record s { loggers = map (with_log_level level) s.loggers }

  -- set_log_level(logger_index, level).
  pub set_log_level : ℤ → LogLevel → Logger B F → Logger B F
  set_log_level index level s = change (with_log_level level) index s

  abbrev pub passes_through : Option F → Bool
  passes_through none = false
  passes_through (some f) = formats.is_passthrough f

  abbrev pub formatted : Option F → LogRecord → Bytes
  formatted none r = []
  formatted (some f) r = formats.format_of f r

  pub dispatch_to_strategy : LoggerStrategy B F → LogRecord → LoggerStrategy B F
  dispatch_to_strategy st r =
      if r.raw_mode
      then record st { logger = api.log_to st.logger r r.format }
      else if passes_through st.formatter
      then record st { logger = api.log_to st.logger r r.format }
      else record st { logger = api.log_to st.logger r (formatted st.formatter r) }

  pub dispatch_to_strategy_if_allowed : LoggerStrategy B F → LogRecord → Bool → LoggerStrategy B F
  dispatch_to_strategy_if_allowed st r targeted =
      if not targeted && st.single_mode
      then st
      else if not st.enabled
      then st
      else if not r.raw_mode && ltb (level_index r.log_level) (level_index (api.level_of st.logger))
      then st
      else dispatch_to_strategy st r

  pub dispatch_all : LogRecord → List (LoggerStrategy B F) → List (LoggerStrategy B F)
  dispatch_all r [] = []
  dispatch_all r (st ∷ loggers) =
      dispatch_to_strategy_if_allowed st r false ∷ dispatch_all r loggers

  -- Targeted when the record's index is not negative.
  pub dispatch : LogRecord → ℤ → List (LoggerStrategy B F) → List (LoggerStrategy B F)
  dispatch r (pos i) loggers =
      change_nth (λ st. dispatch_to_strategy_if_allowed st r true) loggers i
  dispatch r (negsuc i) loggers = dispatch_all r loggers

  pub log : LogRecord → Logger B F → Logger B F
  log r s = if s.is_shutdown then s else record s { loggers = dispatch r r.logger_index s.loggers }

  abbrev pub waited : LoggerStrategy B F → LoggerStrategy B F
  waited st = record st { logger = api.wait_for st.logger }

  pub wait : Logger B F → Logger B F
  wait s = record s { loggers = map waited s.loggers }

  abbrev pub shut_strategy : LoggerStrategy B F → LoggerStrategy B F
  shut_strategy st = record st { logger = api.shut st.logger }

  pub shutdown : Logger B F → Logger B F
  shutdown s = if s.is_shutdown then s else record {
    loggers = map shut_strategy s.loggers;
    is_shutdown = true;
    executor_stopped = true;
  }
