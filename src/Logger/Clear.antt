-- ===== src/Logger/Clear.antt =====
-- Logger.hpp: clear_logger and clear_all_loggers.
use log_it_cpp.Base.{ℕ, ◌+◌, true, false, ◌&&◌, none, some, List, [], ◌∷◌, ltb, ◌==◌, if◌then◌else◌}
use log_it_cpp.Base.Ints.{ℤ}
use log_it_cpp.Base.Words.{add_size}
use log_it_cpp.Record.{Bytes}
use log_it_cpp.Logger.{
  LogClearOptions, LogClearStatus, cleared, unsupported, failed, LogClearResult, ILogger,
  LoggerStrategy, Logger, strategy_at, change_at,
}

-- The counters of clear_all_loggers with the part of its result that the loop fills.
pub record Tally : Type 0 where
  pub supported : ℕ
  pub failures : ℕ
  pub skipped : ℕ
  pub records : ℕ
  pub first_message : Bytes

-- "logger system is shut down"
abbrev pub text_shut_down : Bytes
text_shut_down =
    108 ∷ 111 ∷ 103 ∷ 103 ∷ 101 ∷ 114 ∷ 32 ∷ 115 ∷ 121 ∷ 115 ∷ 116 ∷ 101 ∷ 109 ∷ 32 ∷ 105 ∷ 115 ∷ 32
    ∷ 115 ∷ 104 ∷ 117 ∷ 116 ∷ 32 ∷ 100 ∷ 111 ∷ 119 ∷ 110 ∷ []

-- "logger index not found"
abbrev pub text_not_found : Bytes
text_not_found =
    108 ∷ 111 ∷ 103 ∷ 103 ∷ 101 ∷ 114 ∷ 32 ∷ 105 ∷ 110 ∷ 100 ∷ 101 ∷ 120 ∷ 32 ∷ 110 ∷ 111 ∷ 116 ∷ 32
    ∷ 102 ∷ 111 ∷ 117 ∷ 110 ∷ 100 ∷ []

-- "cleared supported loggers; skipped unsupported loggers"
abbrev pub text_skipped : Bytes
text_skipped =
    99 ∷ 108 ∷ 101 ∷ 97 ∷ 114 ∷ 101 ∷ 100 ∷ 32 ∷ 115 ∷ 117 ∷ 112 ∷ 112 ∷ 111 ∷ 114 ∷ 116 ∷ 101 ∷ 100
    ∷ 32 ∷ 108 ∷ 111 ∷ 103 ∷ 103 ∷ 101 ∷ 114 ∷ 115 ∷ 59 ∷ 32 ∷ 115 ∷ 107 ∷ 105 ∷ 112 ∷ 112 ∷ 101
    ∷ 100 ∷ 32 ∷ 117 ∷ 110 ∷ 115 ∷ 117 ∷ 112 ∷ 112 ∷ 111 ∷ 114 ∷ 116 ∷ 101 ∷ 100 ∷ 32 ∷ 108 ∷ 111
    ∷ 103 ∷ 103 ∷ 101 ∷ 114 ∷ 115 ∷ []

-- "cleared"
abbrev pub text_cleared : Bytes
text_cleared = 99 ∷ 108 ∷ 101 ∷ 97 ∷ 114 ∷ 101 ∷ 100 ∷ []

-- "no logger supports clearing"
abbrev pub text_unsupported : Bytes
text_unsupported =
    110 ∷ 111 ∷ 32 ∷ 108 ∷ 111 ∷ 103 ∷ 103 ∷ 101 ∷ 114 ∷ 32 ∷ 115 ∷ 117 ∷ 112 ∷ 112 ∷ 111 ∷ 114
    ∷ 116 ∷ 115 ∷ 32 ∷ 99 ∷ 108 ∷ 101 ∷ 97 ∷ 114 ∷ 105 ∷ 110 ∷ 103 ∷ []

-- "no loggers to clear"
abbrev pub text_no_loggers : Bytes
text_no_loggers =
    110 ∷ 111 ∷ 32 ∷ 108 ∷ 111 ∷ 103 ∷ 103 ∷ 101 ∷ 114 ∷ 115 ∷ 32 ∷ 116 ∷ 111 ∷ 32 ∷ 99 ∷ 108 ∷ 101
    ∷ 97 ∷ 114 ∷ []

abbrev pub clear_failed : Bytes → LogClearResult
clear_failed message = record {
  is_ok = false;
  status = failed;
  cleared_records = 0;
  message = message;
}

abbrev pub or_else : Bytes → Bytes → Bytes
or_else [] other = other
or_else (c ∷ text) other = c ∷ text

unfoldable pub count_status : LogClearStatus → LogClearResult → Tally → Tally
count_status cleared one t =
    if one.is_ok
    then record t { supported = t.supported + 1; records = add_size t.records one.cleared_records }
    else record t { failures = t.failures + 1; first_message = or_else t.first_message one.message }
count_status unsupported one t = record t { skipped = t.skipped + 1 }
count_status failed one t = record t {
  failures = t.failures + 1;
  first_message = or_else t.first_message one.message;
}

-- What is reported after the loop.
unfoldable pub clear_report : Tally → LogClearResult
clear_report t =
    if ltb 0 t.supported && t.failures == 0
    then record {
      is_ok = true;
      status = cleared;
      cleared_records = t.records;
      message = if ltb 0 t.skipped then text_skipped else text_cleared;
    }
    else record {
      is_ok = false;
      status = if ltb 0 t.skipped && t.failures == 0 then unsupported else failed;
      cleared_records = t.records;
      message =
          or_else t.first_message (if ltb 0 t.skipped then text_unsupported else text_no_loggers);
    }

abbrev pub no_tally : Tally
no_tally = record { supported = 0; failures = 0; skipped = 0; records = 0; first_message = [] }

module _ {B F : Type 0} (api : ILogger B) where
  unfoldable pub clear_logger : ℤ → LogClearOptions → Logger B F → Logger B F × LogClearResult
  clear_logger index options s =
      if s.is_shutdown
      then (s, clear_failed text_shut_down)
      else elim (strategy_at s.loggers index) [
        | none ↦ (s, clear_failed text_not_found)
        | some st ↦ (
          record s {
            loggers =
                change_at (λ u. record u { logger = (api.clear u.logger options).0 }) s.loggers
                  index;
          },
          (api.clear st.logger options).1,
        )
      ]

  unfoldable pub clear_loop :
      LogClearOptions → List (LoggerStrategy B F) → Tally → List (LoggerStrategy B F) × Tally
  clear_loop options [] t = ([], t)
  clear_loop options (st ∷ loggers) t =
      let (logger, one) = api.clear st.logger options in
      let (rest, counted) = clear_loop options loggers (count_status one.status one t) in
      (record st { logger = logger } ∷ rest, counted)

  unfoldable pub clear_all_loggers : LogClearOptions → Logger B F → Logger B F × LogClearResult
  clear_all_loggers options s =
      if s.is_shutdown
      then (s, clear_failed text_shut_down)
      else let (loggers, t) = clear_loop options s.loggers no_tally in
        (record s { loggers = loggers }, clear_report t)
