-- ===== src/Ring/Claim.antt =====
-- MpscRingAny.hpp, try_push: winning a position, and every step of a producer together.
use log_it_cpp.Base.{
  ℕ, ◌+◌, ◌≤◌, ◌<◌, ◌≡◌, ◌≢◌, refl, sym, subst, ◌∙◌, inl, inr, Bool, true, false, some, List, [],
  ◌∷◌, ◌++◌, arith, ◌==◌, length-append, get_elem?, Bool-cases, ℕ_discrete,
}
use log_it_cpp.Base.Words.{add_size}
use log_it_cpp.Ring.{Ring, Producer, System, set_at, push_cas, push_go, push_begin}
use log_it_cpp.Ring.Window.{get_elem?-append_last, get_elem?-append_left, take-append_left}
use log_it_cpp.Ring.Invariant.{
  released, ProducerOk, Owns, IsBusy, IsValid, Fits, released-dequeue, SameCell, IsBusy-same,
  ProducerOk-same, ConsumerOk-same,
}
use log_it_cpp.Ring.Push.{set_at-all, set_at-distinct, with_producer-IsValid, push_read-IsValid}
use log_it_cpp.Ring.Publish.{push_construct-IsValid, push_publish-IsValid}

module _ {T : Type 0} where
  Owns-lt :
      (r : Ring T) (claimed : List T) (f q : ℕ) (y : Producer T)
      → ProducerOk r claimed f y
      → Owns y q
      → q < r.enqueue_pos
  Owns-lt r claimed f q (Producer.at_construct p x) ok own = omega (arith, own, ok.1)
  Owns-lt r claimed f q (Producer.at_publish p x) ok own = omega (arith, own, ok.0.1)
  Owns-lt r claimed f q Producer.ready ok own = absurd own
  Owns-lt r claimed f q (Producer.at_load x) ok own = absurd own
  Owns-lt r claimed f q (Producer.at_read p x) ok own = absurd own
  Owns-lt r claimed f q (Producer.at_cas p x) ok own = absurd own
  Owns-lt r claimed f q (Producer.returned b) ok own = absurd own

  -- The state after a won exchange at `p`.
  module _ (s : System T) (v : IsValid s) (i p : ℕ) (x : T) (fits : Fits s)
      (won : s.enqueue_pos ≡ p) (room : p < released s + s.cap) where
    unfoldable pub claim_state : System T
    claim_state = record s {
      ring = record (s.ring) { enqueue_pos = add_size p 1 };
      producers = set_at s.producers i (Producer.at_construct p x);
      claimed = s.claimed ++ x ∷ [];
    }

    pub claim_state-IsValid : IsValid claim_state
    unfolding claim_state
    claim_state-IsValid = record {
      two_cells = v.two_cells;
      popped_first = omega (arith, v.popped_first);
      within_cap = omega arith;
      counted = omega (arith, length-append s.claimed (x ∷ []), v.counted);
      bounded = λ k h. omega (arith, v.bounded k h);
      no_lag = v.no_lag;
      free = λ q a b. v.free q (omega arith) b;
      busy = busy';
      producers_ok =
          set_at-all (ProducerOk ring' claimed' (released s + s.cap)) s.producers i
            (Producer.at_construct p x)
            (
              omega (arith, v.popped_first),
              omega arith,
              v.free p (omega arith) room,
              subst (λ n. get_elem? claimed' n ≡ some x) (v.counted ∙ won)
                  (get_elem?-append_last s.claimed x),
            )
            (λ j ne.
              ProducerOk-same s.ring s.claimed ring' claimed' (s.producers j) _ _ (omega arith)
                (omega arith) (λ q own a b e. (a, same q b)) (v.producers_ok j));
      distinct =
          set_at-distinct s.producers i (Producer.at_construct p x) v.distinct (λ j q ne e own.
            let lt = Owns-lt s.ring s.claimed _ q (s.producers j) (v.producers_ok j) own in
            omega (arith, e));
      consumer_ok =
          ConsumerOk-same s.ring s.claimed ring' claimed' s.consumer refl (omega arith)
            (λ q a b e. same q b) v.consumer_ok;
      in_order =
          v.in_order
          ∙ sym (
              take-append_left (released s) s.claimed x
                (omega (arith, (released-dequeue v).0, v.popped_first, v.counted)));
    }
      where
        ring' : Ring T
        ring' = claim_state.ring

        claimed' : List T
        claimed' = s.claimed ++ x ∷ []

        same : (q : ℕ) → q < s.enqueue_pos → SameCell s.ring s.claimed ring' claimed' q
        same q b = (refl, refl, get_elem?-append_left s.claimed x q (omega (arith, v.counted)))

        busy' : (q : ℕ) → s.dequeue_pos ≤ q → q < add_size p 1 → IsBusy ring' claimed' q
        busy' q a b = elim (ℕ_discrete q p) [
          | yes e ↦ inl (v.free q (omega arith) (omega arith))
          | no ne ↦
              IsBusy-same s.ring s.claimed ring' claimed' q (same q (omega arith))
                (v.busy q a (omega arith))
        ]

  push_cas-IsValid :
      (s : System T) (i p : ℕ) (x : T) (fails : Bool)
      → IsValid s
      → Fits s
      → p < released s + s.cap
      → IsValid (push_cas s i p x fails)
  unfolding push_cas
  push_cas-IsValid s i p x true v fits room =
      with_producer-IsValid s i (Producer.at_read s.enqueue_pos x) v (omega arith) (λ q a. a)
  push_cas-IsValid s i p x false v fits room = elim (Bool-cases (s.enqueue_pos == p)) [
    | inl e ↦
        rw e (unfold claim_state in claim_state-IsValid s v i p x fits (ground (arith, e)) room)
    | inr e ↦
        rw e
          (with_producer-IsValid s i (Producer.at_read s.enqueue_pos x) v (omega arith) (λ q a. a))
  ]

  pub push_go-IsValid :
      (s : System T) (i : ℕ) (fails : Bool) (y : Producer T)
      → IsValid s
      → Fits s
      → s.producers i ≡ y
      → IsValid (push_go s i fails y)
  unfolding push_go
  push_go-IsValid s i fails y v fits e =
      go y (subst (ProducerOk s.ring s.claimed (released s + s.cap)) e (v.producers_ok i))
        (λ j q ne.
          subst (λ z. Owns z q → ¬ Owns (s.producers j) q) e (v.distinct i j q (λ eq. ne (sym eq))))
    where
      go :
          (y : Producer T)
          → ProducerOk s.ring s.claimed (released s + s.cap) y
          → ((j q : ℕ) → j ≢ i → Owns y q → ¬ Owns (s.producers j) q)
          → IsValid (push_go s i fails y)
      go Producer.ready ok alone = v
      go (Producer.at_load x) ok alone =
          with_producer-IsValid s i (Producer.at_read s.enqueue_pos x) v (omega arith) (λ q a. a)
      go (Producer.at_read p x) ok alone = push_read-IsValid s i p x v fits ok
      go (Producer.at_cas p x) ok alone = push_cas-IsValid s i p x fails v fits ok
      go (Producer.at_construct p x) ok alone =
          push_construct-IsValid s v i p x ok (λ j ne. alone j p ne refl)
      go (Producer.at_publish p x) ok alone =
          push_publish-IsValid s v i p x ok.0 fits (λ j ne. alone j p ne refl) ok.1
      go (Producer.returned b) ok alone = v

  pub push_begin-IsValid :
      (s : System T) (i : ℕ) (x : T) (y : Producer T) → IsValid s → IsValid (push_begin s i x y)
  unfolding push_begin
  push_begin-IsValid s i x Producer.ready v =
      with_producer-IsValid s i (Producer.at_load x) v tt (λ q a. a)
  push_begin-IsValid s i x (Producer.returned b) v =
      with_producer-IsValid s i (Producer.at_load x) v tt (λ q a. a)
  push_begin-IsValid s i x _ v = v
