-- ===== src/UniqueFile/Tests.antt =====
-- Concrete loggers. Every time is the first moment of 2024.
use log_it_cpp.Base.{
  length, arith, ℕ_discrete, Option, ℕ, ◌≡◌, refl, Bool, List, true, false, none, some, [], ◌∷◌,
  ◌==◌, if◌then◌else◌,
}
use log_it_cpp.Base.Ints.{ℤ, pos, ◌+ℤ◌, ◌-ℤ◌}
use log_it_cpp.Base.Decimal.{decimal}
use log_it_cpp.Base.Store.{find, put, retain}
use log_it_cpp.Record.{Bytes}
use log_it_cpp.Context.{text_eq}
use log_it_cpp.Otlp.Json.{bytes_eq}
use log_it_cpp.Format.Fields.{DateTime}
use log_it_cpp.UniqueFile.{
  thread_eq, Config, Task, UniqueFileLogger, Outside, added, dropped_newest, info_of,
  new_unique_logger, create_unique_name, write_log, is_expired, remove_old_logs, log, log_sync,
  log_async, run_task, run_next, clear_logs, get_last_log_file_name,
}
use log_it_cpp.UniqueFile.Spelling.{
  hash_char, generate_fixed_length_hash, format_timestamp, unique_name, match_stem, match_shape,
  is_valid_log_filename,
}
use log_it_cpp.UniqueFile.Names.{create_unique_name-valid}
use log_it_cpp.UniqueFile.Counts.{waiting}
use log_it_cpp.UniqueFile.Pending.{
  Call, log_call, run_call, clear_call, step, run, is_orderly, get_last_log_file_name_lem,
}

abbrev new_year : ℤ → DateTime
new_year time = record { year_ = 2024; mon = 1; day_ = 1; hour_ = 0; min_ = 0; sec = 0; ms = 0 }

abbrev new_year_seconds : Bytes → ℤ
new_year_seconds text = pos 1704067200

abbrev config : Bool → ℕ → Config
config is_async hash_length = record {
  directory = b'd' ∷ [];
  is_async = is_async;
  auto_delete_days = 30;
  hash_length = hash_length;
}

-- An open that succeeds, with the random number 10, that of 'A'.
abbrev outside : Outside
outside = record { draws = 10 ∷ []; opens = true; now = pos 1704067200 }

-- The same a year later.
abbrev a_year_later : Outside
a_year_later = record { draws = 11 ∷ []; opens = true; now = pos 1735689600 }

abbrev task : Task
task = record { thread = 7; text = b'x' ∷ []; time = pos 0 }

abbrev async_logger : UniqueFileLogger
async_logger = new_unique_logger (config true 1) []

-- The last file name of the thread, and the queue.
abbrev observed : List Call → Option Bytes × List Task
observed calls =
    let s = run new_year new_year_seconds calls async_logger in
    (get_last_log_file_name 7 s, s.queue)

create_unique_name-valid_example :
    is_valid_log_filename
      (create_unique_name new_year new_year_seconds (config true 1) outside (pos 0))
    ≡ true
create_unique_name-valid_example =
    create_unique_name-valid new_year new_year_seconds (config true 1) outside (pos 0)
      (
        omega arith,
        omega arith,
        omega arith,
        omega arith,
        omega arith,
        omega arith,
        omega arith,
        omega arith,
      )
      (omega arith) (omega arith) refl

-- With a hash length of 0 the logger does not know its own files, so that they are never removed.
no_hash_test :
    is_valid_log_filename
      (create_unique_name new_year new_year_seconds (config true 0) outside (pos 0))
    ≡ false
unfolding is_valid_log_filename create_unique_name unique_name format_timestamp decimal
    generate_fixed_length_hash match_shape match_stem
no_hash_test = refl

-- Two calls, of which one has run.
abbrev two_calls : List Call
two_calls = log_call added outside task ∷ log_call added outside task ∷ run_call outside ∷ []

get_last_log_file_name_lem_example :
    (let s = run new_year new_year_seconds two_calls async_logger in
      get_last_log_file_name 7 s ≡ (
        if waiting 7 s.queue == 0
        then some (info_of (find 7 s.thread_log_info)).last_file_name
        else none))
unfolding is_orderly step log log_async run_next run_task write_log remove_old_logs
    create_unique_name new_unique_logger
get_last_log_file_name_lem_example =
    get_last_log_file_name_lem new_year new_year_seconds (config true 1) [] two_calls 7 refl refl

-- A task that the executor drops leaves its thread waiting, with nothing in the queue.
dropped_test : observed (log_call dropped_newest outside task ∷ []) ≡ (none, [])
unfolding run step log log_async get_last_log_file_name find put thread_eq ◌+ℤ◌ new_unique_logger
    ℕ_discrete
dropped_test = refl

-- A call of log between the wait of clear_logs and the clearing is counted down twice.
clear_test :
    observed (
      log_call added outside task
      ∷ clear_call
      ∷ log_call added outside task
      ∷ run_call outside
      ∷ run_call outside
      ∷ [])
    ≡ (none, [])
unfolding run step log log_async run_next run_task write_log remove_old_logs clear_logs
    create_unique_name get_last_log_file_name find put retain thread_eq ◌+ℤ◌ new_unique_logger
    ℕ_discrete
clear_test = refl

abbrev sync_logger : UniqueFileLogger
sync_logger = new_unique_logger (config false 1) []

-- The first call of a thread leaves an old file where it is, the second removes it.
old_files_test :
    (let a = log new_year new_year_seconds added outside task sync_logger in
      let b = log new_year new_year_seconds added a_year_later task a in
      let c =
        log new_year new_year_seconds added a_year_later task (record a { thread_log_info = [] }) in
      length b.files ∷ length c.files ∷ [])
    ≡ 0 ∷ 2 ∷ []
unfolding log log_sync write_log remove_old_logs is_expired is_valid_log_filename create_unique_name
    unique_name format_timestamp decimal generate_fixed_length_hash hash_char match_shape match_stem
    text_eq find put retain bytes_eq thread_eq new_unique_logger ◌-ℤ◌ ℕ_discrete
old_files_test = refl
