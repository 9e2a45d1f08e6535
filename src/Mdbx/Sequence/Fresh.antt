-- ===== src/Mdbx/Sequence/Fresh.antt =====
-- MdbxLogger.hpp: the key of a new record is free.
use log_it_cpp.Base.{
  ℕ, zero, suc, ◌+◌, ◌^◌, ◌≡◌, ◌≤◌, ◌<◌, inl, inr, ap, ◌∙◌, Bool, true, false, ◌==◌, ==_iff,
  if_elim, Bool-cases, arith,
}
use log_it_cpp.Base.Ints.{ℤ}
use log_it_cpp.Record.{Bytes}
use log_it_cpp.Mdbx.Keys.{make_mdbx_record_key}
use log_it_cpp.Mdbx.Sequence.{
  max_sequence, Search, found, exhausted, out_of_fuel, SequenceMap, first_candidate, search,
  next_record_key,
}

module _ (contains : Bytes → Bool) (timestamp : ℤ) where
  -- Every key of the timestamp from one candidate to another is taken.
  abbrev pub Taken : ℕ → ℕ → Type 0
  Taken from to = (k : ℕ) → from ≤ k → k < to → contains (make_mdbx_record_key timestamp k) ≡ true

  -- The first free sequence number from `from` on, or none is left.
  abbrev pub FirstFree : ℕ → Search → Type 0
  FirstFree from (found s) =
      (from ≤ s)
      × (s < 2 ^ 32)
      × (contains (make_mdbx_record_key timestamp s) ≡ false)
      × Taken from s
  FirstFree from exhausted = Taken from (2 ^ 32)
  FirstFree from out_of_fuel = ⊥

  one_more :
      (from to : ℕ)
      → contains (make_mdbx_record_key timestamp from) ≡ true
      → Taken (from + 1) to
      → Taken from to
  one_more from to h t k a b = elim (Bool-cases (k == from)) [
    | inl e ↦ ap (λ x. contains (make_mdbx_record_key timestamp x)) ((==_iff k from).0 e) ∙ h
    | inr e ↦ t k (ground (arith, e)) b
  ]

  later :
      (from : ℕ) (r : Search)
      → contains (make_mdbx_record_key timestamp from) ≡ true
      → FirstFree (from + 1) r
      → FirstFree from r
  later from (found s) h f = (omega (arith, f.0), f.1, f.2, one_more from s h f.3)
  later from exhausted h f = one_more from (2 ^ 32) h f
  later from out_of_fuel h f = f

  search-FirstFree :
      (fuel c : ℕ) → c + fuel ≡ 2 ^ 32 → 0 < fuel → FirstFree c (search contains fuel timestamp c)
  unfolding search
  search-FirstFree zero c e p = absurd (omega (arith, p))
  search-FirstFree (suc fuel) c e p =
      elim (Bool-cases (contains (make_mdbx_record_key timestamp c))) [
        | inr h ↦ rw h (omega arith, omega (arith, e), h, λ k a b. absurd (omega (arith, a, b)))
        | inl h ↦ rw h (
            if_elim (FirstFree c) (c == max_sequence) exhausted
              (search contains fuel timestamp (c + 1))
              (λ m.
                one_more c (2 ^ 32) h
                  (λ k a b. absurd (omega (arith, a, b, (==_iff c max_sequence).0 m))))
              (λ m.
                later c _ h
                  (search-FirstFree fuel (c + 1) (omega (arith, e)) (ground (arith, m, e)))))
      ]

-- The search of next_record_key_locked ends, with the first sequence number from the remembered one
-- on whose key the table does not hold, or by reporting that every such key is taken. The
-- remembered number is a uint32_t.
pub next_record_key-FirstFree :
    (contains : Bytes → Bool) (next : SequenceMap) (timestamp : ℤ)
    → first_candidate (next timestamp) < 2 ^ 32
    → FirstFree contains timestamp
        (first_candidate (next timestamp))
        (next_record_key contains next timestamp).0
unfolding next_record_key
next_record_key-FirstFree contains next timestamp h =
    search-FirstFree contains timestamp _ _ (omega (arith, h)) (omega (arith, h))
