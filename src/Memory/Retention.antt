-- ===== src/Memory/Retention.antt =====
-- MemoryLogger.hpp: what the buffer holds after each call (m_evict_expired_locked,
-- m_enforce_limits_locked, log, clear_logs).
use log_it_cpp.Base.{
  ℕ, ◌+◌, ◌%◌, ◌≤◌, ◌<◌, ◌≡◌, refl, sym, ap, ◌∙◌, append_assoc, append-nil, ◌⊎◌, inl, inr, Bool,
  true, false, List, [], ◌∷◌, ◌++◌, arith, ltb, if◌then◌else◌, length, length-append, lt→ltb,
  ltb→lt, sum_by, All, sum_by-append, Bool-cases,
}
use log_it_cpp.Base.Ints.{ℤ, pos, ◌-ℤ◌, ◌<ℤ◌, ◌≤ℤ◌}
use log_it_cpp.Base.Words.{size_mod, add_size, sub_size, sub_size-add_cancel}
use log_it_cpp.Record.{BufferedLogEntry}
use log_it_cpp.Memory.{
  Config, Buffer, entry_bytes, pop_front_while, front_expired, too_many, too_big, evict_expired,
  enforce_max_records, enforce_max_bytes, enforce_limits, push_back, store,
}

abbrev pub buffered_bytes : List BufferedLogEntry → ℕ
buffered_bytes = sum_by entry_bytes

-- The byte counter is the sum of the buffered message sizes, as a `std::size_t`.
abbrev pub IsCounted : Buffer → Type 0
IsCounted b = b.total_bytes ≡ buffered_bytes b.entries % size_mod

pub pop_front_while-IsCounted :
    (test : List BufferedLogEntry → ℕ → Bool) (es : List BufferedLogEntry) (t : ℕ)
    → t ≡ buffered_bytes es % size_mod
    → IsCounted (pop_front_while test es t)
unfolding pop_front_while
pop_front_while-IsCounted test [] t h = h
pop_front_while-IsCounted test (e ∷ es) t h = elim (Bool-cases (test (e ∷ es) t)) [
  | inl more ↦ rw more (
      pop_front_while-IsCounted test es _
        (rw h (sub_size-add_cancel (entry_bytes e) (buffered_bytes es))))
  | inr done ↦ rw done h
]

-- The loop ends on an empty deque or by its test.
pub pop_front_while_stops :
    (test : List BufferedLogEntry → ℕ → Bool) (es : List BufferedLogEntry) (t : ℕ)
    → let b = pop_front_while test es t in (b.entries ≡ []) ⊎ (test b.entries b.total_bytes ≡ false)
unfolding pop_front_while
pop_front_while_stops test [] t = inl refl
pop_front_while_stops test (e ∷ es) t = elim (Bool-cases (test (e ∷ es) t)) [
  | inl more ↦ rw more (pop_front_while_stops test es _)
  | inr done ↦ rw done (inr done)
]

-- The oldest of `es` are gone, and `kept` is the rest in order.
abbrev pub IsSuffix : List BufferedLogEntry → List BufferedLogEntry → Type 0
IsSuffix es kept = (gone : List BufferedLogEntry) × (es ≡ gone ++ kept)

IsSuffix-trans :
    (xs : List BufferedLogEntry) {ys zs : List BufferedLogEntry}
    → IsSuffix xs ys
    → IsSuffix ys zs
    → IsSuffix xs zs
IsSuffix-trans xs {zs = zs} p q =
    (p.0 ++ q.0, p.1 ∙ ap (◌++◌ p.0) q.1 ∙ sym (append_assoc p.0 q.0 zs))

pub pop_front_while-IsSuffix :
    (test : List BufferedLogEntry → ℕ → Bool) (es : List BufferedLogEntry) (t : ℕ)
    → IsSuffix es (pop_front_while test es t).entries
unfolding pop_front_while
pop_front_while-IsSuffix test [] t = ([], refl)
pop_front_while-IsSuffix test (e ∷ es) t = elim (Bool-cases (test (e ∷ es) t)) [
  | inl more ↦ rw more (
    e ∷ (pop_front_while-IsSuffix test es (sub_size t (entry_bytes e))).0,
    ap (◌∷◌ e) (pop_front_while-IsSuffix test es (sub_size t (entry_bytes e))).1,
  )
  | inr done ↦ rw done ([], refl)
]

-- A loop whose test fails at once changes nothing.
pub pop_front_while_idle :
    (test : List BufferedLogEntry → ℕ → Bool) (b : Buffer)
    → test b.entries b.total_bytes ≡ false
    → pop_front_while test b.entries b.total_bytes ≡ b
pop_front_while_idle test b h = go b.entries b.total_bytes h
  where
    go :
        (es : List BufferedLogEntry) (t : ℕ)
        → test es t ≡ false
        → pop_front_while test es t ≡ record { entries = es; total_bytes = t }
    go [] t h = unfold pop_front_while in refl
    go (e ∷ es) t h = unfold pop_front_while in rw h refl

-- The three eviction steps are guarded loops.
module _ (on : Bool) (test : List BufferedLogEntry → ℕ → Bool) (b : Buffer) where
  abbrev guarded : Buffer
  guarded = if on then pop_front_while test b.entries b.total_bytes else b

  guarded-IsCounted : IsCounted b → IsCounted guarded
  guarded-IsCounted h = elim (Bool-cases on) [
    | inl e ↦ rw e (pop_front_while-IsCounted test b.entries b.total_bytes h)
    | inr e ↦ rw e h
  ]

  guarded-IsSuffix : IsSuffix b.entries guarded.entries
  guarded-IsSuffix = elim (Bool-cases on) [
    | inl e ↦ rw e (pop_front_while-IsSuffix test b.entries b.total_bytes)
    | inr e ↦ rw e ([], refl)
  ]

  guarded_stops :
      on ≡ true → (guarded.entries ≡ []) ⊎ (test guarded.entries guarded.total_bytes ≡ false)
  guarded_stops e = rw e (pop_front_while_stops test b.entries b.total_bytes)

  guarded_idle : (on ≡ true → test b.entries b.total_bytes ≡ false) → guarded ≡ b
  guarded_idle h = elim (Bool-cases on) [
    | inl e ↦ rw e (pop_front_while_idle test b (h e))
    | inr e ↦ rw e refl
  ]

-- The retention limits of a configuration (0 means none), on a counted buffer.
pub record IsValid (c : Config) (b : Buffer) : Type 0 where
  pub counted : IsCounted b
  pub few_records : 0 < c.max_records → length b.entries ≤ c.max_records
  pub few_bytes : 0 < c.max_bytes → b.total_bytes ≤ c.max_bytes

length-IsSuffix : {es kept : List BufferedLogEntry} → IsSuffix es kept → length kept ≤ length es
length-IsSuffix {kept = kept} (gone, e) = rw (e, length-append gone kept) (omega arith)

bytes-IsSuffix :
    {es kept : List BufferedLogEntry} → IsSuffix es kept → buffered_bytes kept ≤ buffered_bytes es
bytes-IsSuffix {kept = kept} (gone, e) = rw (e, sum_by-append entry_bytes gone kept) (omega arith)

module _ (c : Config) where
  evict_expired-IsCounted : (now : ℤ) (b : Buffer) → IsCounted b → IsCounted (evict_expired c now b)
  unfolding evict_expired
  evict_expired-IsCounted now b = guarded-IsCounted _ (front_expired (now -ℤ c.max_age_ms)) b

  pub evict_expired-IsSuffix :
      (now : ℤ) (b : Buffer) → IsSuffix b.entries (evict_expired c now b).entries
  unfolding evict_expired
  evict_expired-IsSuffix now b = guarded-IsSuffix _ (front_expired (now -ℤ c.max_age_ms)) b

  enforce_max_records_bound :
      (b : Buffer) → 0 < c.max_records → length (enforce_max_records c b).entries ≤ c.max_records
  unfolding enforce_max_records
  enforce_max_records_bound b h =
      elim (guarded_stops (ltb 0 c.max_records) (too_many c.max_records) b (lt→ltb _ _ h)) [
        | inl e ↦ rw e (omega arith)
        | inr e ↦ ground (arith, e)
      ]

  enforce_max_bytes_bound :
      (b : Buffer)
      → IsCounted b
      → 0 < c.max_bytes
      → (enforce_max_bytes c b).total_bytes ≤ c.max_bytes
  unfolding enforce_max_bytes
  enforce_max_bytes_bound b k h =
      elim (guarded_stops (ltb 0 c.max_bytes) (too_big c.max_bytes) b (lt→ltb _ _ h)) [
        | inl e ↦
            let n = guarded-IsCounted (ltb 0 c.max_bytes) (too_big c.max_bytes) b k in
            omega (arith, n ∙ ap (λ es. buffered_bytes es % size_mod) e)
        | inr e ↦ ground (arith, e)
      ]

  -- A record that is evicted was the oldest one, whichever limit asked for it.
  pub store-IsSuffix :
      (now : ℤ) (e : BufferedLogEntry) (b : Buffer)
      → IsSuffix (b.entries ++ e ∷ []) (store c now e b).entries
  unfolding store enforce_limits enforce_max_records enforce_max_bytes
  store-IsSuffix now e b =
      let first = evict_expired c now b in
      let pushed = push_back e first in
      let aged = evict_expired c now pushed in
      let counted = guarded (ltb 0 c.max_records) (too_many c.max_records) aged in
      let before = evict_expired-IsSuffix now b in
      IsSuffix-trans (b.entries ++ e ∷ []) {ys = first.entries ++ e ∷ []}
        (before.0, ap (λ es. es ++ e ∷ []) before.1 ∙ append_assoc before.0 first.entries (e ∷ []))
        (IsSuffix-trans pushed.entries {ys = aged.entries} (evict_expired-IsSuffix now pushed) (
          IsSuffix-trans aged.entries {ys = counted.entries}
            (guarded-IsSuffix (ltb 0 c.max_records) (too_many c.max_records) aged)
            (guarded-IsSuffix (ltb 0 c.max_bytes) (too_big c.max_bytes) counted)))

  push_back-IsCounted :
      (e : BufferedLogEntry) (b : Buffer) → IsCounted b → IsCounted (push_back e b)
  push_back-IsCounted e b h = omega (arith, h, sum_by-append entry_bytes b.entries (e ∷ []))

  pub store-IsValid :
      (now : ℤ) (e : BufferedLogEntry) (b : Buffer) → IsCounted b → IsValid c (store c now e b)
  unfolding store enforce_limits
  store-IsValid now e b h = record {
    counted = guarded_bytes;
    few_records = λ p. omega (arith, length-IsSuffix kept, enforce_max_records_bound aged p);
    few_bytes = enforce_max_bytes_bound recent recent-IsCounted;
  }
    where
      aged : Buffer
      aged = evict_expired c now (push_back e (evict_expired c now b))

      recent : Buffer
      recent = enforce_max_records c aged

      recent-IsCounted : IsCounted recent
      recent-IsCounted =
          unfold enforce_max_records in
          guarded-IsCounted _ _ aged (
            evict_expired-IsCounted now _
              (push_back-IsCounted e _ (evict_expired-IsCounted now b h)))

      guarded_bytes : IsCounted (enforce_max_bytes c recent)
      guarded_bytes = unfold enforce_max_bytes in guarded-IsCounted _ _ recent recent-IsCounted

      kept : IsSuffix recent.entries (enforce_max_bytes c recent).entries
      kept =
          unfold enforce_max_bytes in
          guarded-IsSuffix (ltb 0 c.max_bytes) (too_big c.max_bytes) recent

  -- A cleanup only drops entries, so it keeps the limits (the counter has not wrapped).
  pub evict_expired-IsValid :
      (now : ℤ) (b : Buffer)
      → IsValid c b
      → buffered_bytes b.entries < size_mod
      → IsValid c (evict_expired c now b)
  evict_expired-IsValid now b v small =
      let kept = evict_expired-IsSuffix now b in
      let counted = evict_expired-IsCounted now b v.counted in
      record {
        counted = counted;
        few_records = λ p. omega (arith, length-IsSuffix kept, v.few_records p);
        few_bytes = λ p. omega (arith, bytes-IsSuffix kept, v.few_bytes p, v.counted, counted);
      }

  pub store-fits :
      (now : ℤ) (e : BufferedLogEntry) (b : Buffer)
      → buffered_bytes b.entries + entry_bytes e < size_mod
      → buffered_bytes (store c now e b).entries < size_mod
  store-fits now e b h =
      omega (
        arith,
        bytes-IsSuffix (store-IsSuffix now e b),
        sum_by-append entry_bytes b.entries (e ∷ []),
      )

  pub evict_expired-fits :
      (now : ℤ) (b : Buffer)
      → buffered_bytes b.entries < size_mod
      → buffered_bytes (evict_expired c now b).entries < size_mod
  evict_expired-fits now b h = omega (arith, bytes-IsSuffix (evict_expired-IsSuffix now b))

-- Entries at or after the cutoff.
abbrev pub AllYoung : ℤ → List BufferedLogEntry → Type 0
AllYoung cutoff = All (λ x. cutoff ≤ℤ x.timestamp_ms)

front_expired-young :
    (cutoff : ℤ) (es rest : List BufferedLogEntry) (t : ℕ)
    → AllYoung cutoff (es ++ rest)
    → front_expired cutoff es t ≡ false
front_expired-young cutoff [] rest t h = refl
front_expired-young cutoff (x ∷ es) rest t h = ground (arith, h.0)

module _ (c : Config) where
  evict_expired-young :
      (now : ℤ) (b : Buffer) (rest : List BufferedLogEntry)
      → (pos 0 <ℤ c.max_age_ms → AllYoung (now -ℤ c.max_age_ms) (b.entries ++ rest))
      → evict_expired c now b ≡ b
  unfolding evict_expired
  evict_expired-young now b rest h =
      guarded_idle _ (front_expired (now -ℤ c.max_age_ms)) b
        (λ e. front_expired-young _ b.entries rest b.total_bytes (h (ltb→lt _ _ e)))

  -- Nothing is evicted while no limit is exceeded and every entry is young enough.
  pub store_within_limits :
      (now : ℤ) (e : BufferedLogEntry) (b : Buffer)
      → (pos 0 <ℤ c.max_age_ms → AllYoung (now -ℤ c.max_age_ms) (b.entries ++ e ∷ []))
      → (0 < c.max_records → length b.entries < c.max_records)
      → (0 < c.max_bytes → add_size b.total_bytes (entry_bytes e) ≤ c.max_bytes)
      → store c now e b ≡ push_back e b
  unfolding store enforce_limits enforce_max_records enforce_max_bytes
  store_within_limits now e b young few small = rw (evict_expired-young now b (e ∷ []) young) (
      rw
        (evict_expired-young now (push_back e b) []
          (λ p. let h = young p in rw (append-nil (b.entries ++ e ∷ [])) h))
        (rw (guarded_idle (ltb 0 c.max_records) (too_many c.max_records) (push_back e b) room)
          (guarded_idle (ltb 0 c.max_bytes) (too_big c.max_bytes) (push_back e b) space)))
    where
      room : ltb 0 c.max_records ≡ true → ltb c.max_records (length (b.entries ++ e ∷ [])) ≡ false
      room p = ground (arith, few (ltb→lt 0 c.max_records p), length-append b.entries (e ∷ []))

      space :
          ltb 0 c.max_bytes ≡ true
          → ltb c.max_bytes (add_size b.total_bytes (entry_bytes e)) ≡ false
      space p = ground (arith, small (ltb→lt 0 c.max_bytes p))
