-- ===== src/Logger/Tests.antt =====
-- Logger.hpp with two backends that keep what they are given: the second takes errors only.
use log_it_cpp.Base.{
  ℕ, ◌≡◌, ◌%◌, ◌^◌, refl, true, false, ◌&&◌, some, List, [], ◌∷◌, map, filter, sum_by, ltb, ◌==◌,
  get_elem?, if◌then◌else◌, length,
}
use log_it_cpp.Base.Ints.{pos, negsuc}
use log_it_cpp.Record.{Bytes, LogLevel, LogRecord}
use log_it_cpp.Logger.{
  LogClearOptions, cleared, unsupported, failed, ILogger, ILogFormatter, Logger, log, shut_strategy,
  shutdown,
}
use log_it_cpp.Logger.Clear.{clear_all_loggers}
use log_it_cpp.Logger.Reads.{not_read}
use log_it_cpp.Logger.Dispatch.{at_index, received, get-log}
use log_it_cpp.Logger.Calls.{run, logs, waits, shuts_down, run-shutdown}
use log_it_cpp.Logger.Clearing.{
  has_cleared, has_failed, is_unsupported, count, cleared_strategy, results_of,
  clear_all_loggers_lem,
}

-- A level and the texts, the last first.
abbrev Keeper : Type 0
Keeper = LogLevel × List Bytes

abbrev keeping : ILogger Keeper
keeping = record {
  log_to = λ b r text. (b.0, text ∷ b.1);
  level_of = λ b. b.0;
  with_level = λ b level. (level, b.1);
  wait_for = λ b. b;
  shut = λ b. b;
  clear = λ b o. (
    (b.0, []),
    record { is_ok = true; status = cleared; cleared_records = length b.1; message = [] },
  );
  string_param_of = λ b param. [];
  int_param_of = λ b param. pos 0;
  strings_of = λ b. b.1;
  entries_of = λ b. [];
  files_of = λ b. [];
  read_file = λ b path. not_read path;
  read_files = λ b paths. map not_read paths;
}

-- Puts a byte before the text.
abbrev marking : ILogFormatter ℕ
marking = record {
  format_of = λ c r. c ∷ r.format;
  is_passthrough = λ c. c == 0;
  with_offset = λ c ms. c;
}

abbrev two_loggers : Logger Keeper ℕ
two_loggers = record {
  loggers =
      record {
        logger = (LogLevel.trace, []);
        formatter = some 42;
        single_mode = false;
        enabled = true;
      }
      ∷ record {
        logger = (LogLevel.error, []);
        formatter = some 0;
        single_mode = false;
        enabled = true;
      }
      ∷ [];
  is_shutdown = false;
  executor_stopped = false;
}

abbrev warning : LogRecord
warning = record {
  log_level = LogLevel.warn;
  timestamp_ms = pos 5;
  file = [];
  line = pos 1;
  function = [];
  format = 97 ∷ [];
  arg_names = [];
  thread_id = 0;
  logger_index = negsuc 0;
  print_mode = false;
  fmt_mode = false;
  raw_mode = false;
}

abbrev everything : LogClearOptions
everything = record {
  include_persistent_records = true;
  include_payloads = true;
  include_sessions = true;
}

get-log_example :
    get_elem? (log keeping marking warning two_loggers).loggers 1
    ≡ at_index (received keeping marking warning (negsuc 0) 1) (get_elem? two_loggers.loggers 1)
get-log_example = get-log keeping marking warning two_loggers 1

run-shutdown_example :
    (run keeping marking
        (shutdown keeping marking two_loggers)
        (logs warning ∷ waits ∷ shuts_down ∷ [])
      ≡ shutdown keeping marking two_loggers)
    × ((shutdown keeping marking two_loggers).loggers
        ≡ map (shut_strategy keeping marking) two_loggers.loggers)
    × ((shutdown keeping marking two_loggers).executor_stopped ≡ true)
run-shutdown_example =
    run-shutdown keeping marking (λ b. refl) two_loggers (logs warning ∷ waits ∷ shuts_down ∷ [])
      refl

clear_all_loggers_lem_example :
    let rs = results_of keeping everything two_loggers.loggers in
    let (u, r) = clear_all_loggers keeping everything two_loggers in
    let ok = ltb 0 (count has_cleared rs) && count has_failed rs == 0 in
    (u.loggers ≡ map (cleared_strategy keeping everything) two_loggers.loggers)
    × (r.is_ok ≡ ok)
    × (r.cleared_records ≡ sum_by (λ r. r.cleared_records) (filter has_cleared rs) % 2 ^ 64)
    × (r.status ≡ (
        if ok
        then cleared
        else if ltb 0 (count is_unsupported rs) && count has_failed rs == 0
        then unsupported
        else failed))
clear_all_loggers_lem_example = clear_all_loggers_lem keeping everything two_loggers refl
