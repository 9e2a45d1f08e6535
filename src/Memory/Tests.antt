-- ===== src/Memory/Tests.antt =====
-- MemoryLogger.hpp on small inputs.
use log_it_cpp.Base.{
  ℕ, ◌≡◌, refl, true, ◌||◌, leb, false, List, [], ◌∷◌, ◌++◌, map, arith, reverse, if◌then◌else◌,
}
use log_it_cpp.Base.Ints.{pos, negsuc, ◌-ℤ◌, ltb_ℤ}
use log_it_cpp.Record.{Bytes, level_index, LogLevel, LogRecord, BufferedLogEntry, LogReadOrder}
use log_it_cpp.Memory.{
  Config, Buffer, MemoryLogger, init, make_entry, store, push_back, log, to_snapshot,
  add_log_callback, remove_log_callback, clear_logs, cleanup, read_range, read_recent,
  evict_expired, enforce_limits, enforce_max_records, enforce_max_bytes, pop_front_while, collect,
}
use log_it_cpp.Memory.Retention.{IsSuffix, IsValid, store-IsSuffix, store_within_limits}
use log_it_cpp.Memory.Calls.{Call, logs, reads, clears, step, run, run-init-IsValid}
use log_it_cpp.Memory.Reads.{take_limit, snapshot, within, current, recent, reads_lem}
use log_it_cpp.Memory.Callbacks.{notified, subscription_lem}

-- Two records, ten bytes, one second.
abbrev small : Config
small = record { max_records = 2; max_bytes = 10; max_age_ms = pos 1000 }

abbrev record_at : ℕ → LogLevel → LogRecord
record_at ms level = record {
  log_level = level;
  timestamp_ms = pos ms;
  file = [];
  line = pos 1;
  function = [];
  format = [];
  arg_names = [];
  thread_id = 0;
  logger_index = negsuc 0;
  print_mode = false;
  fmt_mode = false;
  raw_mode = false;
}

abbrev entry_at : ℕ → Bytes → BufferedLogEntry
entry_at ms message = make_entry (record_at ms LogLevel.info) message

abbrev abc : Bytes
abc = b'a' ∷ b'b' ∷ b'c' ∷ []

abbrev two_entries : Buffer
two_entries = record { entries = entry_at 100 abc ∷ entry_at 200 abc ∷ []; total_bytes = 6 }

-- A third record pushes the oldest out, and a late one pushes out all that are too old.
store_evicts :
    ((store small (pos 300) (entry_at 300 abc) two_entries).entries
      ≡ entry_at 200 abc ∷ entry_at 300 abc ∷ [])
    × ((store small (pos 1300) (entry_at 1300 []) two_entries).entries ≡ entry_at 1300 [] ∷ [])
unfolding store evict_expired enforce_limits enforce_max_records enforce_max_bytes pop_front_while
    ◌-ℤ◌
store_evicts = (refl, refl)

store-IsSuffix_example :
    IsSuffix
      (two_entries.entries ++ entry_at 300 abc ∷ [])
      (store small (pos 300) (entry_at 300 abc) two_entries).entries
store-IsSuffix_example = store-IsSuffix small (pos 300) (entry_at 300 abc) two_entries

abbrev roomy : Config
roomy = record { max_records = 3; max_bytes = 10; max_age_ms = pos 1000 }

store_within_limits_test :
    store roomy (pos 300) (entry_at 300 abc) two_entries ≡ push_back (entry_at 300 abc) two_entries
unfolding ◌-ℤ◌
store_within_limits_test =
    store_within_limits roomy (pos 300) (entry_at 300 abc) two_entries (λ p. omega arith)
      (λ p. omega arith) (λ p. omega arith)

abbrev history : List (Call ℕ)
history =
    logs (record_at 100 LogLevel.info) abc (pos 1)
    ∷ logs (record_at 200 LogLevel.warn) abc (pos 2)
    ∷ reads (pos 250)
    ∷ logs (record_at 300 LogLevel.error) abc (pos 3)
    ∷ clears
    ∷ logs (record_at 400 LogLevel.error) abc (pos 4)
    ∷ []

run-init-IsValid_example : IsValid small (run (init ℕ small) history).buffer
unfolding step run log store evict_expired enforce_limits enforce_max_records enforce_max_bytes
    pop_front_while ◌-ℤ◌ cleanup clear_logs
run-init-IsValid_example = run-init-IsValid ℕ small history (omega arith)

abbrev filled : MemoryLogger ℕ
filled = record {
  config = small;
  buffer = two_entries;
  last_log_ts = pos 200;
  last_log_mono_ts = pos 2;
  log_level = 2;
  callbacks = (1, 70) ∷ [];
  next_callback_id = 2;
}

read_range_runs :
    (read_range filled (pos 250) (pos 150) (pos 250) 1).1 ≡ to_snapshot (entry_at 200 abc) ∷ []
unfolding read_range collect cleanup evict_expired pop_front_while ◌-ℤ◌
read_range_runs = refl

-- Logged with an earlier time, the second entry comes second.
abbrev unordered : MemoryLogger ℕ
unordered = record filled {
  buffer = record { entries = entry_at 200 abc ∷ entry_at 100 abc ∷ []; total_bytes = 6 };
}

read_range-unordered_test :
    map (λ s. s.timestamp_ms) (read_range unordered (pos 250) (pos 0) (pos 250) 0).1
    ≡ pos 200 ∷ pos 100 ∷ []
unfolding read_range collect cleanup evict_expired pop_front_while ◌-ℤ◌
read_range-unordered_test = refl

reads_lem_example :
    ((read_range filled (pos 250) (pos 150) (pos 250) 1).1 ≡ (
      if ltb_ℤ (pos 150) (pos 250)
      then map snapshot (take_limit 1 (within (pos 150) (pos 250) (current filled (pos 250))))
      else []))
    × ((read_recent filled (pos 250) (pos 250) 1 (pos 500) LogReadOrder.ascending).1
        ≡ reverse (recent filled (pos 250) (pos 250) (pos 500) 1))
reads_lem_example =
    reads_lem filled (pos 250) (pos 150) (pos 250) 1 (pos 250) (pos 500) LogReadOrder.ascending

subscription_lem_example :
    let (m', id) = add_log_callback filled 71 in
    let record_ = record_at 300 LogLevel.info in
    ((log m' record_ abc (pos 3)).1 ≡ (
      if record_.raw_mode || leb filled.log_level (level_index record_.log_level)
      then map (λ kv. (kv.1, notified record_ abc)) filled.callbacks
        ++ (71, notified record_ abc) ∷ []
      else []))
    × ((remove_log_callback m' id).0.callbacks ≡ filled.callbacks)
    × ((remove_log_callback m' id).1 ≡ true)
subscription_lem_example =
    subscription_lem filled 71 (record_at 300 LogLevel.info) abc (pos 3) (omega arith)
