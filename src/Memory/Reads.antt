-- ===== src/Memory/Reads.antt =====
-- MemoryLogger.hpp: what read_range and read_recent return.
use log_it_cpp.Base.{
  ℕ, zero, suc, ◌+◌, ◌≡◌, refl, sym, ap, ◌∙◌, append_assoc, append-nil, inl, inr, Bool, true, false,
  ◌&&◌, ◌||◌, not, List, [], ◌∷◌, ◌++◌, map, reverse, arith, ltb, leb, if◌then◌else◌, length,
  length-append, filter, filter-reverse, take, Bool-cases,
}
use log_it_cpp.Base.Ints.{ℤ, pos, pos_part, neg_part, ◌-ℤ◌, ltb_ℤ}
use log_it_cpp.Base.Words.{sub_size}
use log_it_cpp.Record.{BufferedLogEntry, LogRecordSnapshot, LogReadOrder}
use log_it_cpp.Memory.{
  Config, Buffer, MemoryLogger, entry_bytes, pop_front_while, front_expired, evict_expired,
  to_snapshot, cleanup, collect, in_range, in_period, read_range, read_recent,
}

-- Whether a whole number is at most another.
abbrev pub leb_ℤ : ℤ → ℤ → Bool
leb_ℤ a b = leb (pos_part a + neg_part b) (pos_part b + neg_part a)

-- At most `limit` of a list, 0 meaning all of it.
abbrev pub take_limit {ℓ} : {A : Type ℓ} → ℕ → List A → List A
take_limit zero xs = xs
take_limit (suc n) xs = take (suc n) xs

module _ (test : BufferedLogEntry → Bool) where
  collect_unlimited :
      (es : List BufferedLogEntry) (out : List LogRecordSnapshot)
      → collect test 0 es out ≡ out ++ map to_snapshot (filter test es)
  unfolding collect
  collect_unlimited [] out = sym (append-nil out)
  collect_unlimited (e ∷ es) out = elim (Bool-cases (test e)) [
    | inl hit ↦ rw hit (
        collect_unlimited es (out ++ to_snapshot e ∷ [])
        ∙ append_assoc out (to_snapshot e ∷ []) (map to_snapshot (filter test es)))
    | inr miss ↦ rw miss (collect_unlimited es out)
  ]

  -- `stop` of the loop body: the list just grew to the limit.
  is_full : ℕ → List LogRecordSnapshot → Bool
  is_full limit out = ltb 0 limit && leb limit (length out)

  is_full_last :
      (limit : ℕ) (out : List LogRecordSnapshot) (x : LogRecordSnapshot)
      → length out + 1 ≡ limit
      → is_full limit (out ++ x ∷ []) ≡ true
  unfolding is_full
  is_full_last limit out x h = ground (arith, length-append out (x ∷ []))

  is_full_before :
      (limit room : ℕ) (out : List LogRecordSnapshot) (x : LogRecordSnapshot)
      → length out + suc (suc room) ≡ limit
      → is_full limit (out ++ x ∷ []) ≡ false
  unfolding is_full
  is_full_before limit room out x h = ground (arith, length-append out (x ∷ []))

  -- With `room + 1` places left, the loop adds that many of the matching entries.
  collect_limited :
      (limit room : ℕ) (es : List BufferedLogEntry) (out : List LogRecordSnapshot)
      → length out + suc room ≡ limit
      → collect test limit es out ≡ out ++ map to_snapshot (take (suc room) (filter test es))
  unfolding collect is_full
  collect_limited limit room [] out h = sym (append-nil out)
  collect_limited limit zero (e ∷ es) out h = elim (Bool-cases (test e)) [
    | inl hit ↦ rw (hit, is_full_last limit out (to_snapshot e) h)
    | inr miss ↦ rw miss (collect_limited limit zero es out h)
  ]
  collect_limited limit (suc room) (e ∷ es) out h = elim (Bool-cases (test e)) [
    | inl hit ↦
        rw (hit, is_full_before limit room out (to_snapshot e) h)
          (collect_limited limit room es (out ++ to_snapshot e ∷ [])
              (omega (arith, length-append out (to_snapshot e ∷ [])))
            ∙ append_assoc out (to_snapshot e ∷ []) _)
    | inr miss ↦ rw miss (collect_limited limit (suc room) es out h)
  ]

  collect_lem :
      (limit : ℕ) (es : List BufferedLogEntry)
      → collect test limit es [] ≡ map to_snapshot (take_limit limit (filter test es))
  collect_lem zero es = collect_unlimited es []
  collect_lem (suc n) es = collect_limited (suc n) n es [] (omega arith)

-- The snapshot that a read returns of an entry.
abbrev pub snapshot : BufferedLogEntry → LogRecordSnapshot
snapshot e = record {
  session_id = 0;
  timestamp_ms = e.timestamp_ms;
  sequence = 0;
  level = e.level;
  message = e.message;
  payload_id = 0;
  file = e.file;
  function = e.function;
  line = e.line;
}

-- The entries from the first one on that is not older than a time.
abbrev pub since : ℤ → List BufferedLogEntry → List BufferedLogEntry
since cutoff [] = []
since cutoff (e ∷ es) =
    let rest = since cutoff es in if leb_ℤ cutoff e.timestamp_ms then e ∷ es else rest

-- The entries that a read at a time sees: without the expired ones at the front, where there is an
-- age limit.
abbrev pub current : {C : Type 0} → MemoryLogger C → ℤ → List BufferedLogEntry
current m now =
    if ltb_ℤ (pos 0) m.config.max_age_ms
    then since (now -ℤ m.config.max_age_ms) m.buffer.entries
    else m.buffer.entries

leb_ℤ-not : (a b : ℤ) → leb_ℤ a b ≡ not (ltb_ℤ b a)
leb_ℤ-not a b = ground arith

pop_front_while-since :
    (cutoff : ℤ) (es : List BufferedLogEntry) (total : ℕ)
    → (pop_front_while (front_expired cutoff) es total).entries ≡ since cutoff es
unfolding pop_front_while
pop_front_while-since cutoff [] total = refl
pop_front_while-since cutoff (e ∷ es) total = elim (Bool-cases (ltb_ℤ e.timestamp_ms cutoff)) [
  | inl h ↦
      rw (leb_ℤ-not cutoff e.timestamp_ms, h)
        (pop_front_while-since cutoff es (sub_size total (entry_bytes e)))
  | inr h ↦ rw (leb_ℤ-not cutoff e.timestamp_ms, h)
]

evict_expired-since :
    (c : Config) (now : ℤ) (b : Buffer)
    → (evict_expired c now b).entries
      ≡ (if ltb_ℤ (pos 0) c.max_age_ms then since (now -ℤ c.max_age_ms) b.entries else b.entries)
unfolding evict_expired
evict_expired-since c now b = elim (Bool-cases (ltb_ℤ (pos 0) c.max_age_ms)) [
  | inl h ↦ rw h (pop_front_while-since (now -ℤ c.max_age_ms) b.entries b.total_bytes)
  | inr h ↦ rw h
]

-- The entries of a range, its end not included.
abbrev pub within : ℤ → ℤ → List BufferedLogEntry → List BufferedLogEntry
within from to es = filter (λ e. leb_ℤ from e.timestamp_ms && ltb_ℤ e.timestamp_ms to) es

-- The entries of the last `period`, at a time; all of them where the period is not positive.
abbrev pub lately : ℤ → ℤ → List BufferedLogEntry → List BufferedLogEntry
lately now period es =
    if ltb_ℤ (pos 0) period then filter (λ e. leb_ℤ (now -ℤ period) e.timestamp_ms) es else es

filter-in_range :
    (from to : ℤ) (es : List BufferedLogEntry) → filter (in_range from to) es ≡ within from to es
filter-in_range from to [] = refl
filter-in_range from to (e ∷ es) = rw (leb_ℤ-not from e.timestamp_ms, filter-in_range from to es)

filter-in_period :
    (now period : ℤ) (es : List BufferedLogEntry)
    → filter (in_period period (if ltb_ℤ (pos 0) period then now -ℤ period else pos 0)) es
      ≡ lately now period es
filter-in_period now period es = go (ltb_ℤ (pos 0) period) es
  where
    go :
        (limited : Bool) (es : List BufferedLogEntry)
        → filter
            (λ e.
              not limited || not (ltb_ℤ e.timestamp_ms (if limited then now -ℤ period else pos 0)))
            es
          ≡ (if limited then filter (λ e. leb_ℤ (now -ℤ period) e.timestamp_ms) es else es)
    go true [] = refl
    go true (e ∷ es) = rw (leb_ℤ-not (now -ℤ period) e.timestamp_ms, go true es)
    go false [] = refl
    go false (e ∷ es) = ap (◌∷◌ e) (go false es)

module _ {C : Type 0} (m : MemoryLogger C) (now : ℤ) where
  cleanup-current : (cleanup m now).buffer.entries ≡ current m now
  unfolding cleanup
  cleanup-current = evict_expired-since m.config now m.buffer

  -- In the order they were logged, the first `limit` entries (0: all) of a range, its end not
  -- included, that have not expired.
  read_range_lem :
      (from to : ℤ) (limit : ℕ)
      → (read_range m now from to limit).1 ≡ (
          if ltb_ℤ from to
          then map snapshot (take_limit limit (within from to (current m now)))
          else [])
  unfolding read_range
  read_range_lem from to limit = elim (Bool-cases (ltb_ℤ from to)) [
    | inl e ↦ rw e (
        collect_lem (in_range from to) limit (cleanup m now).buffer.entries
        ∙ ap (λ es. map snapshot (take_limit limit es))
            (filter-in_range from to (cleanup m now).buffer.entries
              ∙ ap (within from to) cleanup-current))
    | inr e ↦ rw e
  ]

  -- The newest `limit` entries of the period, newest first.
  abbrev pub recent : ℤ → ℤ → ℕ → List LogRecordSnapshot
  recent now' period limit =
      map snapshot (take_limit limit (reverse (lately now' period (current m now))))

  recent_lem :
      (now' period : ℤ) (limit : ℕ)
      → collect
          (in_period period (if ltb_ℤ (pos 0) period then now' -ℤ period else pos 0))
          limit
          (reverse (cleanup m now).buffer.entries)
          []
        ≡ recent now' period limit
  recent_lem now' period limit =
      let test = in_period period (if ltb_ℤ (pos 0) period then now' -ℤ period else pos 0) in
      collect_lem test limit (reverse (cleanup m now).buffer.entries)
      ∙ ap (λ es. map snapshot (take_limit limit es))
          (filter-reverse test (cleanup m now).buffer.entries
            ∙ ap reverse (
                filter-in_period now' period (cleanup m now).buffer.entries
                ∙ ap (lately now' period) cleanup-current))

  -- The newest `limit` entries of the period, newest first or oldest first.
  read_recent_lem :
      (now' period : ℤ) (limit : ℕ) (order : LogReadOrder)
      → (read_recent m now now' limit period order).1 ≡ elim order [
        | LogReadOrder.ascending ↦ reverse (recent now' period limit)
        | LogReadOrder.descending ↦ recent now' period limit
      ]
  unfolding read_recent
  read_recent_lem now' period limit LogReadOrder.ascending =
      ap reverse (recent_lem now' period limit)
  read_recent_lem now' period limit LogReadOrder.descending = recent_lem now' period limit

  -- `read_range` returns, in the order they were logged, which need not be that of their
  -- timestamps, the snapshots of the first `limit` entries (0: all) that have not expired and are
  -- at `from` or later and before `to`, and nothing for an empty range; `read_recent` returns those
  -- of the newest `limit` entries that have not expired and, for a positive period, are not older
  -- than it, newest first or, for the ascending order, reversed. Expired are, under an age limit,
  -- the entries before the first one within it.
  pub reads_lem :
      (from to : ℤ) (limit : ℕ) (now' period : ℤ) (order : LogReadOrder)
      → ((read_range m now from to limit).1 ≡ (
          if ltb_ℤ from to
          then map snapshot (take_limit limit (within from to (current m now)))
          else []))
        × ((read_recent m now now' limit period order).1 ≡ elim order [
          | LogReadOrder.ascending ↦ reverse (recent now' period limit)
          | LogReadOrder.descending ↦ recent now' period limit
        ])
  reads_lem from to limit now' period order =
      (read_range_lem from to limit, read_recent_lem now' period limit order)
