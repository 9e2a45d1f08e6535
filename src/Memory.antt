-- ===== src/Memory.antt =====
-- loggers/MemoryLogger.hpp: the in-memory backend. Clock readings are arguments of each call.
-- `m_total_bytes` is a `std::size_t` that wraps; timestamps are integers that do not overflow.
-- The two mutexes make each call one step; a callback is a value of any type `C`, and a call's
-- result lists the callbacks that `notify_callbacks` runs with what each is given.
pub mod Retention
pub mod Calls
pub mod Reads
pub mod Callbacks
mod Tests
use log_it_cpp.Base.{
  ℕ, Bool, false, ◌&&◌, ◌||◌, not, List, [], ◌∷◌, ◌++◌, map, reverse, ltb, leb, ◌==◌, if◌then◌else◌,
  length, filter,
}
use log_it_cpp.Base.Ints.{ℤ, pos, ◌-ℤ◌, ltb_ℤ}
use log_it_cpp.Base.Words.{add_size, sub_size}
use log_it_cpp.Record.{
  Bytes, LogLevel, level_index, LogRecord, BufferedLogEntry, LogRecordSnapshot, LogReadOrder,
}

pub record Config : Type 0 where
  pub max_records : ℕ
  pub max_bytes : ℕ
  pub max_age_ms : ℤ

-- The deque with its byte count.
pub record Buffer : Type 0 where
  pub entries : List BufferedLogEntry
  pub total_bytes : ℕ

pub record MemoryLogger (C : Type 0) : Type 0 where
  pub config : Config
  pub buffer : Buffer
  pub last_log_ts : ℤ
  pub last_log_mono_ts : ℤ
  pub log_level : ℕ
  pub callbacks : List (ℕ × C)
  pub next_callback_id : ℕ

-- `MemoryLogger(config)`: nothing stored, level TRACE, callback ids from 1.
abbrev pub init : (C : Type 0) → Config → MemoryLogger C
init C config = record {
  config = config;
  buffer = record { entries = []; total_bytes = 0 };
  last_log_ts = pos 0;
  last_log_mono_ts = pos 0;
  log_level = level_index LogLevel.trace;
  callbacks = [];
  next_callback_id = 1;
}

abbrev pub entry_bytes : BufferedLogEntry → ℕ
entry_bytes e = length e.message

abbrev pub to_snapshot : BufferedLogEntry → LogRecordSnapshot
to_snapshot e = record {
  session_id = 0;
  timestamp_ms = e.timestamp_ms;
  sequence = 0;
  level = e.level;
  message = e.message;
  payload_id = 0;
  file = e.file;
  function = e.function;
  line = e.line;
}

-- `while (!m_entries.empty() && test) m_pop_front_locked();`
pub pop_front_while : (List BufferedLogEntry → ℕ → Bool) → List BufferedLogEntry → ℕ → Buffer
pop_front_while test [] total = record { entries = []; total_bytes = total }
pop_front_while test (e ∷ es) total =
    let rest = pop_front_while test es (sub_size total (entry_bytes e)) in
    if test (e ∷ es) total then rest else record { entries = e ∷ es; total_bytes = total }

abbrev pub front_expired : ℤ → List BufferedLogEntry → ℕ → Bool
front_expired cutoff [] total = false
front_expired cutoff (e ∷ es) total = ltb_ℤ e.timestamp_ms cutoff

abbrev pub too_many : ℕ → List BufferedLogEntry → ℕ → Bool
too_many max_records es total = ltb max_records (length es)

abbrev pub too_big : ℕ → List BufferedLogEntry → ℕ → Bool
too_big max_bytes es total = ltb max_bytes total

pub evict_expired : Config → ℤ → Buffer → Buffer
evict_expired c now b =
    if ltb_ℤ (pos 0) c.max_age_ms
    then pop_front_while (front_expired (now -ℤ c.max_age_ms)) b.entries b.total_bytes
    else b

pub enforce_max_records : Config → Buffer → Buffer
enforce_max_records c b =
    if ltb 0 c.max_records
    then pop_front_while (too_many c.max_records) b.entries b.total_bytes
    else b

pub enforce_max_bytes : Config → Buffer → Buffer
enforce_max_bytes c b =
    if ltb 0 c.max_bytes then pop_front_while (too_big c.max_bytes) b.entries b.total_bytes else b

pub enforce_limits : Config → ℤ → Buffer → Buffer
enforce_limits c now b = enforce_max_bytes c (enforce_max_records c (evict_expired c now b))

abbrev pub push_back : BufferedLogEntry → Buffer → Buffer
push_back e b = record {
  entries = b.entries ++ e ∷ [];
  total_bytes = add_size b.total_bytes (entry_bytes e);
}

-- What one accepted record does to the buffer.
pub store : Config → ℤ → BufferedLogEntry → Buffer → Buffer
store c now e b = enforce_limits c now (push_back e (evict_expired c now b))

abbrev pub make_entry : LogRecord → Bytes → BufferedLogEntry
make_entry r message = record {
  level = r.log_level;
  timestamp_ms = r.timestamp_ms;
  file = r.file;
  line = r.line;
  function = r.function;
  message = message;
}

module _ {C : Type 0} where
  abbrev pub notify_callbacks : MemoryLogger C → LogRecordSnapshot → List (C × LogRecordSnapshot)
  notify_callbacks m s = map (λ kv. (kv.1, s)) m.callbacks

  abbrev pub is_filtered : MemoryLogger C → LogRecord → Bool
  is_filtered m r = not r.raw_mode && ltb (level_index r.log_level) m.log_level

  -- The record is ignored below the level unless it is raw. `mono` is LOGIT_MONOTONIC_MS().
  pub log : MemoryLogger C → LogRecord → Bytes → ℤ → MemoryLogger C × List (C × LogRecordSnapshot)
  log m r message mono = if is_filtered m r then (m, []) else (
    record m {
      buffer = store m.config r.timestamp_ms (make_entry r message) m.buffer;
      last_log_ts = r.timestamp_ms;
      last_log_mono_ts = mono;
    },
    notify_callbacks m (to_snapshot (make_entry r message)),
  )

  pub set_log_level : MemoryLogger C → LogLevel → MemoryLogger C
  set_log_level m level = record m { log_level = level_index level }

  -- Ids grow, so the `std::map` keeps the callbacks in the order they were added.
  pub add_log_callback : MemoryLogger C → C → MemoryLogger C × ℕ
  add_log_callback m callback = (
    record m {
      callbacks = m.callbacks ++ (m.next_callback_id, callback) ∷ [];
      next_callback_id = add_size m.next_callback_id 1;
    },
    m.next_callback_id,
  )

  abbrev pub has_id : ℕ → List (ℕ × C) → Bool
  has_id id [] = false
  has_id id (kv ∷ kvs) = kv.0 == id || has_id id kvs

  pub remove_log_callback : MemoryLogger C → ℕ → MemoryLogger C × Bool
  remove_log_callback m id =
      (record m { callbacks = filter (λ kv. not (kv.0 == id)) m.callbacks }, has_id id m.callbacks)

  -- Returns `cleared_records`; the rest of the result is constant.
  pub clear_logs : MemoryLogger C → MemoryLogger C × ℕ
  clear_logs m = (
    record m {
      buffer = record { entries = []; total_bytes = 0 };
      last_log_ts = pos 0;
      last_log_mono_ts = pos 0;
    },
    length m.buffer.entries,
  )

  -- The age-based cleanup that every read runs first, at the wall clock `now`.
  pub cleanup : MemoryLogger C → ℤ → MemoryLogger C
  cleanup m now = record m { buffer = evict_expired m.config now m.buffer }

  pub get_buffered_strings : MemoryLogger C → ℤ → MemoryLogger C × List Bytes
  get_buffered_strings m now =
      let m' = cleanup m now in (m', map (λ e. e.message) m'.buffer.entries)

  pub get_buffered_entries : MemoryLogger C → ℤ → MemoryLogger C × List BufferedLogEntry
  get_buffered_entries m now = let m' = cleanup m now in (m', m'.buffer.entries)

  pub get_time_since_last_log : MemoryLogger C → ℤ → ℤ
  get_time_since_last_log m now =
      if not (ltb_ℤ (pos 0) m.last_log_mono_ts)
      then pos 0
      else if ltb_ℤ m.last_log_mono_ts now
      then now -ℤ m.last_log_mono_ts
      else pos 0

-- `for (e : es) if (test) { out.push_back(..); if (limit > 0 && out.size() >= limit) break; }`
pub collect :
    (BufferedLogEntry → Bool)
    → ℕ
    → List BufferedLogEntry
    → List LogRecordSnapshot
    → List LogRecordSnapshot
collect test limit [] out = out
collect test limit (e ∷ es) out =
    let out' = out ++ to_snapshot e ∷ [] in
    let stop = ltb 0 limit && leb limit (length out') in
    let next = collect test limit es (if test e then out' else out) in
    if test e && stop then out' else next

abbrev pub in_range : ℤ → ℤ → BufferedLogEntry → Bool
in_range from to e = not (ltb_ℤ e.timestamp_ms from) && ltb_ℤ e.timestamp_ms to

abbrev pub in_period : ℤ → ℤ → BufferedLogEntry → Bool
in_period period from e = not (ltb_ℤ (pos 0) period) || not (ltb_ℤ e.timestamp_ms from)

module _ {C : Type 0} where
  pub read_range : MemoryLogger C → ℤ → ℤ → ℤ → ℕ → MemoryLogger C × List LogRecordSnapshot
  read_range m now from to limit =
      if not (ltb_ℤ from to)
      then (m, [])
      else (cleanup m now, collect (in_range from to) limit (cleanup m now).buffer.entries [])

  -- `now` and `now'` are the two readings of the wall clock.
  pub read_recent :
      MemoryLogger C → ℤ → ℤ → ℕ → ℤ → LogReadOrder → MemoryLogger C × List LogRecordSnapshot
  read_recent m now now' limit period order =
      let m' = cleanup m now in
      let from = if ltb_ℤ (pos 0) period then now' -ℤ period else pos 0 in
      let out = collect (in_period period from) limit (reverse m'.buffer.entries) [] in
      (m', elim order [ LogReadOrder.ascending ↦ reverse out | LogReadOrder.descending ↦ out ])
