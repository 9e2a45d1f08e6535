-- ===== src/Memory/Callbacks.antt =====
-- MemoryLogger.hpp: subscription and notification of callbacks.
use log_it_cpp.Base.{
  ℕ, ◌+◌, ◌≤◌, ◌<◌, ◌≡◌, refl, inl, inr, Bool, true, ◌&&◌, ◌||◌, not, ltb, leb, List, [], ◌∷◌, ◌++◌,
  map, arith, ◌==◌, filter, All, All-append, Bool-cases, if◌then◌else◌,
}
use log_it_cpp.Base.Ints.{ℤ}
use log_it_cpp.Base.Words.{size_mod, add_size}
use log_it_cpp.Record.{Bytes, level_index, LogRecord, LogRecordSnapshot}
use log_it_cpp.Memory.{MemoryLogger, has_id, log, add_log_callback, remove_log_callback}

-- The snapshot that a callback is given of a record.
abbrev pub notified : LogRecord → Bytes → LogRecordSnapshot
notified r message = record {
  session_id = 0;
  timestamp_ms = r.timestamp_ms;
  sequence = 0;
  level = r.log_level;
  message = message;
  payload_id = 0;
  file = r.file;
  function = r.function;
  line = r.line;
}

passes :
    (raw : Bool) (level least : ℕ) → (not raw && ltb level least) ≡ not (raw || leb least level)
passes raw level least = ground arith

module _ {C : Type 0} where
  -- Every id handed out so far is below the next one.
  abbrev pub AreIssued : MemoryLogger C → Type 0
  AreIssued m = All (λ kv. kv.0 < m.next_callback_id) m.callbacks

  filter-ne_last :
      (n : ℕ) (c : C) (kvs : List (ℕ × C))
      → All (λ kv. kv.0 < n) kvs
      → filter (λ kv. not (kv.0 == n)) (kvs ++ (n, c) ∷ []) ≡ kvs
  filter-ne_last n c [] h = ground arith
  filter-ne_last n c (kv ∷ kvs) h = ground (arith, h.0, filter-ne_last n c kvs h.1)

  has_id_last : (n : ℕ) (c : C) (kvs : List (ℕ × C)) → has_id n (kvs ++ (n, c) ∷ []) ≡ true
  has_id_last n c [] = ground arith
  has_id_last n c (kv ∷ kvs) = ground (arith, has_id_last n c kvs)

  map-append_last :
      (r : LogRecordSnapshot) (n : ℕ) (c : C) (kvs : List (ℕ × C))
      → map {B = C × LogRecordSnapshot} (λ kv. (kv.1, r)) (kvs ++ (n, c) ∷ [])
        ≡ map {B = C × LogRecordSnapshot} (λ kv. (kv.1, r)) kvs ++ (c, r) ∷ []
  map-append_last r n c [] = refl
  map-append_last r n c (kv ∷ kvs) = rw (map-append_last r n c kvs)

  -- Adding a callback keeps the issued ids below the next one, until 2 ^ 64 of them.
  pub add_log_callback-AreIssued :
      (m : MemoryLogger C) (c : C)
      → m.next_callback_id + 1 < size_mod
      → AreIssued m
      → AreIssued (add_log_callback m c).0
  unfolding add_log_callback
  add_log_callback-AreIssued m c room h =
      All-append _ m.callbacks ((m.next_callback_id, c) ∷ [])
        (raise m.callbacks m.next_callback_id (add_size m.next_callback_id 1) (omega arith) h)
        (omega arith)
    where
      raise :
          (kvs : List (ℕ × C)) (a b : ℕ)
          → a ≤ b
          → All (λ kv. kv.0 < a) kvs
          → All (λ kv. kv.0 < b) kvs
      raise [] a b le h = tt
      raise (kv ∷ kvs) a b le h = (omega arith, raise kvs a b le h.1)

  -- A record that is raw or at the level at least notifies every callback with its snapshot, in the
  -- order they were added, and a new one last; another record notifies nobody.
  log-add_log_callback :
      (m : MemoryLogger C) (c : C) (r : LogRecord) (message : Bytes) (mono : ℤ)
      → (log (add_log_callback m c).0 r message mono).1 ≡ (
          if r.raw_mode || leb m.log_level (level_index r.log_level)
          then map (λ kv. (kv.1, notified r message)) m.callbacks ++ (c, notified r message) ∷ []
          else [])
  unfolding log add_log_callback
  log-add_log_callback m c r message mono =
      let heard = r.raw_mode || leb m.log_level (level_index r.log_level) in
      let e = passes r.raw_mode (level_index r.log_level) m.log_level in
      elim (Bool-cases heard) [
        | inl h ↦ rw (e, h) (map-append_last (notified r message) m.next_callback_id c m.callbacks)
        | inr h ↦ rw (e, h)
      ]

  -- Removing by the returned id takes away that callback and no other, and says so.
  remove-add_log_callback :
      (m : MemoryLogger C) (c : C)
      → AreIssued m
      → let (m', id) = add_log_callback m c in
        ((remove_log_callback m' id).0.callbacks ≡ m.callbacks)
        × ((remove_log_callback m' id).1 ≡ true)
  unfolding add_log_callback remove_log_callback
  remove-add_log_callback m c h = (
    filter-ne_last m.next_callback_id c m.callbacks h,
    has_id_last m.next_callback_id c m.callbacks,
  )

  -- A record that is raw or at the level at least notifies every callback with its snapshot, in the
  -- order they were added, a new subscriber last, and any other record notifies nobody; where every
  -- issued id is below the next one, removing by the returned id takes away that callback and no
  -- other, and says so.
  pub subscription_lem :
      (m : MemoryLogger C) (c : C) (r : LogRecord) (message : Bytes) (mono : ℤ)
      → AreIssued m
      → let (m', id) = add_log_callback m c in
        ((log m' r message mono).1 ≡ (
          if r.raw_mode || leb m.log_level (level_index r.log_level)
          then map (λ kv. (kv.1, notified r message)) m.callbacks ++ (c, notified r message) ∷ []
          else []))
        × ((remove_log_callback m' id).0.callbacks ≡ m.callbacks)
        × ((remove_log_callback m' id).1 ≡ true)
  subscription_lem m c r message mono h =
      let (same, said) = remove-add_log_callback m c h in
      (log-add_log_callback m c r message mono, same, said)
