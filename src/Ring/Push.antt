-- ===== src/Ring/Push.antt =====
-- MpscRingAny.hpp, try_push: every atomic access of a producer keeps the invariant.
use native.Mathlib.Decide.{dec_lt}
use native.Mathlib.Nat.{add-mod_right, mod-lt}
use log_it_cpp.Base.{
  ℕ, ◌+◌, ◌%◌, ◌^◌, ◌≤◌, ◌<◌, ◌≡◌, ◌≢◌, sym, ap, subst, ◌∙◌, inl, inr, false, List, arith,
  Bool-cases, ℕ_discrete,
}
use log_it_cpp.Base.Ints.{pos, ltb_ℤ}
use log_it_cpp.Ring.{
  Ring, Producer, Consumer, System, diff, is_zero, set_at, with_producer, push_read,
}
use log_it_cpp.Ring.Window.{set_at_self, set_at_ne, diff_zero→eq}
use log_it_cpp.Ring.Invariant.{
  released, released_by, ProducerOk, Owns, ConsumerOk, IsBusy, IsValid, Fits,
}

module _ {T : Type 0} where
  -- Replacing one producer's state: the rest of a pointwise property is untouched.
  pub set_at-all :
      (P : Producer T → Type 0) (f : ℕ → Producer T) (i : ℕ) (p : Producer T)
      → P p
      → ((j : ℕ) → j ≢ i → P (f j))
      → (j : ℕ) → P (set_at f i p j)
  set_at-all P f i p new old j = elim (ℕ_discrete j i) [
    | yes e ↦ subst P (sym (set_at_self f i p e)) new
    | no ne ↦ subst P (sym (set_at_ne f i p ne)) (old j ne)
  ]

  -- What a producer that starts to own `q` must not share with the others.
  pub set_at-distinct :
      (f : ℕ → Producer T) (i : ℕ) (p : Producer T)
      → ((j k q : ℕ) → j ≢ k → Owns (f j) q → ¬ Owns (f k) q)
      → ((j q : ℕ) → j ≢ i → Owns p q → ¬ Owns (f j) q)
      → (j k q : ℕ) → j ≢ k
      → Owns (set_at f i p j) q
      → ¬ Owns (set_at f i p k) q
  set_at-distinct f i p old new j k q ne a b = elim (ℕ_discrete j i) [
    | yes e ↦ elim (ℕ_discrete k i) [
      | yes e' ↦ ne (e ∙ sym e')
      | no n' ↦
          new k q n' (subst (λ x. Owns x q) (set_at_self f i p e) a)
            (subst (λ x. Owns x q) (set_at_ne f i p n') b)
    ]
    | no n ↦ elim (ℕ_discrete k i) [
      | yes e' ↦
          new j q n (subst (λ x. Owns x q) (set_at_self f i p e') b)
            (subst (λ x. Owns x q) (set_at_ne f i p n) a)
      | no n' ↦
          old j k q ne (subst (λ x. Owns x q) (set_at_ne f i p n) a)
            (subst (λ x. Owns x q) (set_at_ne f i p n') b)
    ]
  ]

  -- A producer that owns nothing afterwards.
  pub with_producer-IsValid :
      (s : System T) (i : ℕ) (p : Producer T)
      → IsValid s
      → ProducerOk s.ring s.claimed (released s + s.cap) p
      → ((q : ℕ) → ¬ Owns p q)
      → IsValid (with_producer s i p)
  with_producer-IsValid s i p v ok none_owned = record {
    two_cells = v.two_cells;
    popped_first = v.popped_first;
    within_cap = v.within_cap;
    counted = v.counted;
    bounded = v.bounded;
    no_lag = v.no_lag;
    free = v.free;
    busy = v.busy;
    producers_ok =
        set_at-all (ProducerOk s.ring s.claimed (released s + s.cap)) s.producers i p ok
          (λ j ne. v.producers_ok j);
    distinct = set_at-distinct s.producers i p v.distinct (λ j q ne h. absurd (none_owned q h));
    consumer_ok = v.consumer_ok;
    in_order = v.in_order;
  }

  -- The oldest cell that is not given back holds its position's number or the next one.
  pub released_cell :
      (s : System T)
      → IsValid s
      → released s < s.enqueue_pos
      → s.seq (released s % s.cap) ≤ released s + 1
  released_cell s v h = go s.ring s.claimed s.consumer v.consumer_ok (v.busy (released s)) h
    where
      go :
          (r : Ring T) (claimed : List T) (c : Consumer T)
          → ConsumerOk r claimed c
          → let q = released_by r.dequeue_pos c in
            (r.dequeue_pos ≤ q → q < r.enqueue_pos → IsBusy r claimed q)
            → released_by r.dequeue_pos c < r.enqueue_pos
            → r.seq (released_by r.dequeue_pos c % r.cap) ≤ released_by r.dequeue_pos c + 1
      go r claimed (Consumer.at_move p) ok busy h = omega (arith, ok.0.2)
      go r claimed (Consumer.at_release p x) ok busy h = omega (arith, ok.0.2)
      go r claimed Consumer.ready ok busy h = elim (busy (omega arith) h) [
        | inl e ↦ omega (arith, e)
        | inr (e, st) ↦ omega (arith, e)
      ]
      go r claimed _ ok busy h = elim (busy (omega arith) h) [
        | inl e ↦ omega (arith, e)
        | inr (e, st) ↦ omega (arith, e)
      ]

  -- A position whose cell carries its own number is within the free lap.
  pub own_number-lt :
      (s : System T) (p : ℕ)
      → IsValid s
      → p ≤ s.enqueue_pos
      → s.seq (p % s.cap) ≡ p
      → p < released s + s.cap
  own_number-lt s p v h e = elim (dec_lt p (released s + s.cap)) [
    | yes lt ↦ lt
    | no ge ↦
        let at : p ≡ released s + s.cap = omega (arith, v.within_cap) in
        let same : s.seq (p % s.cap) ≡ s.seq (released s % s.cap) =
          ap s.seq (ap (λ n. n % s.cap) at ∙ add-mod_right (released s) s.cap) in
        omega (arith, same, released_cell s v (omega (arith, v.two_cells)), v.two_cells)
  ]

  pub cell_seq-lt : (s : System T) (p : ℕ) → IsValid s → Fits s → s.seq (p % s.cap) < 2 ^ 63
  cell_seq-lt s p v fits =
      let below : p % s.cap < s.cap = mod-lt p (omega (arith, v.two_cells)) in
      omega (arith, v.bounded (p % s.cap) below)

  pub push_read-IsValid :
      (s : System T) (i p : ℕ) (x : T)
      → IsValid s
      → Fits s
      → p ≤ s.enqueue_pos
      → IsValid (push_read s i p x)
  unfolding push_read
  push_read-IsValid s i p x v fits h = elim (Bool-cases (is_zero (diff (s.seq (p % s.cap)) p))) [
    | inl e ↦ rw e (
        with_producer-IsValid s i (Producer.at_cas p x) v
          (own_number-lt s p v h (diff_zero→eq _ p (cell_seq-lt s p v fits) (omega arith) e))
          (λ q a. a))
    | inr e ↦ rw e (elim (Bool-cases (ltb_ℤ (diff (s.seq (p % s.cap)) p) (pos 0))) [
      | inl n ↦ rw n (with_producer-IsValid s i (Producer.returned false) v tt (λ q a. a))
      | inr n ↦ rw n (with_producer-IsValid s i (Producer.at_load x) v tt (λ q a. a))
    ])
  ]
