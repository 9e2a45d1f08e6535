-- ===== src/Ring/Pop.antt =====
-- MpscRingAny.hpp, try_pop: every atomic access of the consumer keeps the invariant.
use native.Mathlib.Nat.{add-mod_right}
use native.Mathlib.Decide.{dec_lt}
use log_it_cpp.Base.{
  ℕ, suc, ◌+◌, ◌%◌, ◌≤◌, ◌<◌, ◌≡◌, ◌≢◌, refl, sym, ap, subst, ◌∙◌, inl, inr, Bool, true, false,
  Option, none, some, [], ◌∷◌, ◌++◌, arith, ◌==◌, get_elem?, take, Bool-cases, ℕ_discrete,
}
use log_it_cpp.Base.Words.{add_size}
use log_it_cpp.Ring.{
  Ring, Consumer, System, diff, is_zero, set_at, with_consumer, pop_read, pop_cas, pop_move,
  pop_release, pop_go, pop_begin,
}
use log_it_cpp.Ring.Window.{
  window_ne, set_at_self, set_at_ne, diff_zero→eq, take_next, get_elem?-ne-none,
}
use log_it_cpp.Ring.Invariant.{
  released, released_by, ProducerOk, IsTaken, ConsumerOk, IsValid, Fits, SameCell, IsBusy-same,
  ProducerOk-same,
}
use log_it_cpp.Ring.Push.{cell_seq-lt}

module _ {T : Type 0} where
  -- The consumer moves on without giving a cell back.
  with_consumer-IsValid :
      (s : System T) (c : Consumer T)
      → IsValid s
      → released_by s.dequeue_pos c ≡ released s
      → ConsumerOk s.ring s.claimed c
      → IsValid (with_consumer s c)
  with_consumer-IsValid s c v e ok = record {
    two_cells = v.two_cells;
    popped_first = v.popped_first;
    within_cap = omega (arith, v.within_cap);
    counted = v.counted;
    bounded = v.bounded;
    no_lag = λ p h. v.no_lag p (omega arith);
    free = λ p a b. v.free p a (omega arith);
    busy = v.busy;
    producers_ok = λ i.
        subst (λ n. ProducerOk s.ring s.claimed (n + s.cap) (s.producers i)) (sym e)
          (v.producers_ok i);
    distinct = v.distinct;
    consumer_ok = ok;
    in_order = v.in_order ∙ ap (λ n. take n s.claimed) (sym e);
  }

  pop_read-IsValid :
      (s : System T) (p : ℕ)
      → IsValid s
      → Fits s
      → p ≡ s.dequeue_pos
      → released s ≡ s.dequeue_pos
      → IsValid (pop_read s p)
  unfolding pop_read
  pop_read-IsValid s p v fits at rel =
      elim (Bool-cases (is_zero (diff (s.seq (p % s.cap)) (add_size p 1)))) [
        | inl e ↦ rw e (
            let next : s.seq (p % s.cap) ≡ add_size p 1 =
              diff_zero→eq _ (add_size p 1) (cell_seq-lt s p v fits) (omega (arith, v.popped_first))
                e in
            let published : s.seq (p % s.cap) ≡ suc p = omega (arith, next, v.popped_first) in
            with_consumer-IsValid s (Consumer.at_cas p) v (sym rel)
              (at, taken published, published))
        | inr e ↦ rw e (with_consumer-IsValid s (Consumer.returned none) v (sym rel) tt)
      ]
    where
      taken : s.seq (p % s.cap) ≡ suc p → p < s.enqueue_pos
      taken e = elim (dec_lt p s.enqueue_pos) [
        | yes lt ↦ lt
        | no ge ↦
            absurd (
              omega (arith, v.free p (omega arith) (omega (arith, v.popped_first, v.two_cells)), e))
      ]

  pop_cas-IsValid :
      (s : System T) (p : ℕ) (fails : Bool)
      → IsValid s
      → Fits s
      → (p ≡ s.dequeue_pos) × (p < s.enqueue_pos) × (s.seq (p % s.cap) ≡ suc p)
      → released s ≡ s.dequeue_pos
      → IsValid (pop_cas s p fails)
  unfolding pop_cas
  pop_cas-IsValid s p true v fits ok rel = with_consumer-IsValid s Consumer.at_load v (sym rel) tt
  pop_cas-IsValid s p false v fits ok rel = elim (Bool-cases (s.dequeue_pos == p)) [
    | inr e ↦ rw e (with_consumer-IsValid s Consumer.at_load v (sym rel) tt)
    | inl e ↦ rw e (record {
      two_cells = v.two_cells;
      popped_first = omega (arith, ok.1);
      within_cap = omega (arith, v.within_cap);
      counted = v.counted;
      bounded = v.bounded;
      no_lag = λ q h. v.no_lag q (omega arith);
      free = λ q a b. v.free q a (omega arith);
      busy = λ q a b. v.busy q (omega arith) b;
      producers_ok = λ i.
          ProducerOk-same s.ring s.claimed ring' s.claimed (s.producers i) _ _ (omega arith)
            (omega arith) (λ q own a b unpublished. (not_taken q a unpublished, (refl, refl, refl)))
            (v.producers_ok i);
      distinct = v.distinct;
      consumer_ok = ((omega arith, ok.1, ok.2), value);
      in_order = v.in_order ∙ ap (λ n. take n s.claimed) (rel ∙ sym ok.0);
    })
  ]
    where
      ring' : Ring T
      ring' = record (s.ring) { dequeue_pos = add_size p 1 }

      not_taken : (q : ℕ) → s.dequeue_pos ≤ q → s.seq (q % s.cap) ≡ q → add_size p 1 ≤ q
      not_taken q a unpublished = elim (ℕ_discrete q p) [
        | yes e ↦ absurd (omega (arith, ap (λ n. s.seq (n % s.cap)) e, ok.2, unpublished))
        | no ne ↦ omega (arith, ok.1)
      ]

      value : s.storage (p % s.cap) ≡ get_elem? s.claimed p
      value = elim (v.busy p (omega arith) ok.1) [
        | inl e ↦ absurd (omega (arith, ok.2, e))
        | inr (e, st) ↦ st
      ]

  -- The consumer owns the cell of position `p` until it gives it back.
  module _ (s : System T) (v : IsValid s) (p : ℕ) (taken : IsTaken s.ring p)
      (rel : released s ≡ p) where
    other_cell : (q : ℕ) → s.dequeue_pos ≤ q → q < released s + s.cap → q % s.cap ≢ p % s.cap
    other_cell q a b =
        window_ne s.cap p q p (omega (arith, taken.0)) (omega arith) (omega arith)
          (omega (arith, v.two_cells)) (omega (arith, taken.0))

    busy_cell : (q : ℕ) → s.dequeue_pos ≤ q → q < s.enqueue_pos → q % s.cap ≢ p % s.cap
    busy_cell q a b = other_cell q a (omega (arith, v.within_cap))

    pop_move-IsValid :
        (o : Option T)
        → s.storage (p % s.cap) ≡ o
        → s.storage (p % s.cap) ≡ get_elem? s.claimed p
        → IsValid (pop_move s p o)
    unfolding pop_move
    pop_move-IsValid none e st =
        absurd (get_elem?-ne-none s.claimed p (omega (arith, taken.1, v.counted)) (sym st ∙ e))
    pop_move-IsValid (some x) e st = record {
      two_cells = v.two_cells;
      popped_first = v.popped_first;
      within_cap = omega (arith, v.within_cap);
      counted = v.counted;
      bounded = v.bounded;
      no_lag = λ q h. v.no_lag q (omega arith);
      free = λ q a b. v.free q a (omega arith);
      busy = λ q a b. IsBusy-same s.ring s.claimed ring' s.claimed q (same q a b) (v.busy q a b);
      producers_ok = λ i.
          ProducerOk-same s.ring s.claimed ring' s.claimed (s.producers i) _ _ (omega arith)
            (omega arith) (λ q own a b u. (a, same q a b)) (v.producers_ok i);
      distinct = v.distinct;
      consumer_ok = (taken, sym st ∙ e);
      in_order = v.in_order ∙ ap (λ n. take n s.claimed) rel;
    }
      where
        ring' : Ring T
        ring' = record (s.ring) { storage = set_at s.storage (p % s.cap) none }

        same :
            (q : ℕ)
            → s.dequeue_pos ≤ q
            → q < s.enqueue_pos
            → SameCell s.ring s.claimed ring' s.claimed q
        same q a b = (refl, set_at_ne s.storage (p % s.cap) none (busy_cell q a b), refl)

    pop_release-IsValid :
        (x : T) → Fits s → get_elem? s.claimed p ≡ some x → IsValid (pop_release s p x)
    unfolding pop_release
    pop_release-IsValid x fits value = record {
      two_cells = v.two_cells;
      popped_first = v.popped_first;
      within_cap = omega (arith, v.within_cap, taken.0);
      counted = v.counted;
      bounded = bounded';
      no_lag = no_lag';
      free = free';
      busy = λ q a b. IsBusy-same s.ring s.claimed ring' s.claimed q (same q a b) (v.busy q a b);
      producers_ok = λ i.
          ProducerOk-same s.ring s.claimed ring' s.claimed (s.producers i) _ _ (omega arith)
            (omega (arith, taken.0)) (λ q own a b u. (a, same q a b)) (v.producers_ok i);
      distinct = v.distinct;
      consumer_ok = tt;
      in_order =
          ap (λ xs. xs ++ x ∷ []) (v.in_order ∙ ap (λ n. take n s.claimed) rel)
          ∙ sym (ap (λ n. take n s.claimed) taken.0 ∙ take_next p s.claimed value);
    }
      where
        ring' : Ring T
        ring' = record (s.ring) { seq = set_at s.seq (p % s.cap) (add_size p s.cap) }

        given_back : add_size p s.cap ≡ p + s.cap
        given_back = omega (arith, taken.1)

        at_cell : {k : ℕ} → k ≡ p % s.cap → ring'.seq k ≡ p + s.cap
        at_cell e = set_at_self s.seq (p % s.cap) (add_size p s.cap) e ∙ given_back

        elsewhere : {k : ℕ} → k ≢ p % s.cap → ring'.seq k ≡ s.seq k
        elsewhere ne = set_at_ne s.seq (p % s.cap) (add_size p s.cap) ne

        same :
            (q : ℕ)
            → s.dequeue_pos ≤ q
            → q < s.enqueue_pos
            → SameCell s.ring s.claimed ring' s.claimed q
        same q a b = (elsewhere (busy_cell q a b), refl, refl)

        bounded' : (k : ℕ) → k < s.cap → ring'.seq k ≤ s.enqueue_pos + s.cap
        bounded' k h = elim (ℕ_discrete k (p % s.cap)) [
          | yes e ↦ omega (arith, at_cell e, taken.1)
          | no ne ↦ omega (arith, elsewhere ne, v.bounded k h)
        ]

        next_lap : (q : ℕ) → q ≡ p + s.cap → q % s.cap ≡ p % s.cap
        next_lap q e = ap (λ n. n % s.cap) e ∙ add-mod_right p s.cap

        no_lag' : (q : ℕ) → q < s.dequeue_pos + s.cap → q ≤ ring'.seq (q % s.cap)
        no_lag' q h = elim (ℕ_discrete (q % s.cap) (p % s.cap)) [
          | yes e ↦ omega (arith, at_cell e, taken.0)
          | no ne ↦ elim (ℕ_discrete q (p + s.cap)) [
            | yes e ↦ absurd (ne (next_lap q e))
            | no n ↦ omega (arith, elsewhere ne, v.no_lag q (omega (arith, taken.0)))
          ]
        ]

        free' : (q : ℕ) → s.enqueue_pos ≤ q → q < s.dequeue_pos + s.cap → ring'.seq (q % s.cap) ≡ q
        free' q a b = elim (ℕ_discrete q (p + s.cap)) [
          | yes e ↦ at_cell (next_lap q e) ∙ sym e
          | no n ↦
              elsewhere (other_cell q (omega (arith, v.popped_first)) (omega (arith, taken.0)))
              ∙ v.free q a (omega (arith, taken.0))
        ]

  pub pop_go-IsValid :
      (s : System T) (fails : Bool) (c : Consumer T)
      → IsValid s
      → Fits s
      → s.consumer ≡ c
      → IsValid (pop_go s fails c)
  unfolding pop_go
  pop_go-IsValid s fails c v fits e =
      go c (subst (ConsumerOk s.ring s.claimed) e v.consumer_ok) (ap (released_by s.dequeue_pos) e)
    where
      go :
          (c : Consumer T)
          → ConsumerOk s.ring s.claimed c
          → released s ≡ released_by s.dequeue_pos c
          → IsValid (pop_go s fails c)
      go Consumer.ready ok rel = v
      go Consumer.at_load ok rel =
          with_consumer-IsValid s (Consumer.at_read s.dequeue_pos) v (sym rel) refl
      go (Consumer.at_read p) ok rel = pop_read-IsValid s p v fits ok rel
      go (Consumer.at_cas p) ok rel = pop_cas-IsValid s p fails v fits ok rel
      go (Consumer.at_move p) ok rel = pop_move-IsValid s v p ok.0 rel _ refl ok.1
      go (Consumer.at_release p x) ok rel = pop_release-IsValid s v p ok.0 rel x fits ok.1
      go (Consumer.returned o) ok rel = v
      go Consumer.fault ok rel = v

  pub pop_begin-IsValid :
      (s : System T) (c : Consumer T) → IsValid s → s.consumer ≡ c → IsValid (pop_begin s c)
  unfolding pop_begin
  pop_begin-IsValid s Consumer.ready v e =
      with_consumer-IsValid s Consumer.at_load v (sym (ap (released_by s.dequeue_pos) e)) tt
  pop_begin-IsValid s (Consumer.returned o) v e =
      with_consumer-IsValid s Consumer.at_load v (sym (ap (released_by s.dequeue_pos) e)) tt
  pop_begin-IsValid s _ v e = v
