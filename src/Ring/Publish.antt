-- ===== src/Ring/Publish.antt =====
-- MpscRingAny.hpp, try_push: storing the value of a claimed position and publishing it.
use log_it_cpp.Base.{
  ℕ, suc, ◌+◌, ◌%◌, ◌≤◌, ◌<◌, ◌≡◌, ◌≢◌, refl, sym, ap, subst, ◌∙◌, inl, inr, true, some, arith,
  get_elem?, ℕ_discrete,
}
use log_it_cpp.Base.Words.{add_size}
use log_it_cpp.Ring.{Ring, Producer, System, push_construct, push_publish}
use log_it_cpp.Ring.Window.{window_ne, set_at_self, set_at_ne}
use log_it_cpp.Ring.Invariant.{
  released, IsClaimed, ProducerOk, Owns, IsBusy, IsValid, Fits, released-dequeue, SameCell,
  IsBusy-same, ProducerOk-same, ConsumerOk-same,
}
use log_it_cpp.Ring.Push.{set_at-all, set_at-distinct}

module _ {T : Type 0} where
  -- The cells other than that of an unpublished position `p` are left alone.
  module _ (s : System T) (v : IsValid s) (i p : ℕ) (x : T)
      (claim : IsClaimed s.ring s.claimed p x) where
    other_cell : (q : ℕ) → released s ≤ q → q < s.enqueue_pos → q ≢ p → q % s.cap ≢ p % s.cap
    other_cell q a b ne =
        let d = released-dequeue v in
        window_ne s.cap (released s) q p a (omega (arith, v.within_cap)) (omega (arith, claim.0))
          (omega (arith, v.within_cap, claim.1)) ne

    claimed_cell : (q : ℕ) → released s ≤ q → q < s.enqueue_pos → s.seq (q % s.cap) ≡ suc q → q ≢ p
    claimed_cell q a b e same =
        let at : s.seq (q % s.cap) ≡ p = ap (λ n. s.seq (n % s.cap)) same ∙ claim.2 in
        omega (arith, at, e)

    pub push_construct-IsValid :
        ((j : ℕ) → j ≢ i → ¬ Owns (s.producers j) p) → IsValid (push_construct s i p x)
    unfolding push_construct
    push_construct-IsValid alone = record {
      two_cells = v.two_cells;
      popped_first = v.popped_first;
      within_cap = v.within_cap;
      counted = v.counted;
      bounded = v.bounded;
      no_lag = v.no_lag;
      free = v.free;
      busy = busy';
      producers_ok =
          set_at-all (ProducerOk ring' s.claimed (released s + s.cap)) s.producers i
            (Producer.at_publish p x) (claim, set_at_self s.storage (p % s.cap) (some x) refl)
            (λ j ne.
              ProducerOk-same s.ring s.claimed ring' s.claimed (s.producers j) _ _ (omega arith)
                (omega arith)
                (λ q own a b e. (
                  a,
                  same q (omega (arith, (released-dequeue v).0)) b
                      (λ eq. alone j ne (subst (Owns (s.producers j)) eq own)),
                ))
                (v.producers_ok j));
      distinct =
          set_at-distinct s.producers i (Producer.at_publish p x) v.distinct
            (λ j q ne e own. alone j ne (subst (Owns (s.producers j)) (sym e) own));
      consumer_ok =
          ConsumerOk-same s.ring s.claimed ring' s.claimed s.consumer refl (omega arith)
            (λ q a b e. same q a b (claimed_cell q a b e)) v.consumer_ok;
      in_order = v.in_order;
    }
      where
        ring' : Ring T
        ring' = (push_construct s i p x).ring

        same :
            (q : ℕ)
            → released s ≤ q
            → q < s.enqueue_pos
            → q ≢ p
            → SameCell s.ring s.claimed ring' s.claimed q
        same q a b ne = (refl, set_at_ne s.storage (p % s.cap) (some x) (other_cell q a b ne), refl)

        busy' : (q : ℕ) → s.dequeue_pos ≤ q → q < s.enqueue_pos → IsBusy ring' s.claimed q
        busy' q a b = elim (ℕ_discrete q p) [
          | yes e ↦ inl (ap (λ n. s.seq (n % s.cap)) e ∙ claim.2 ∙ sym e)
          | no ne ↦
              IsBusy-same s.ring s.claimed ring' s.claimed q
                (same q (omega (arith, (released-dequeue v).0)) b ne) (v.busy q a b)
        ]

    pub push_publish-IsValid :
        Fits s
        → ((j : ℕ) → j ≢ i → ¬ Owns (s.producers j) p)
        → s.storage (p % s.cap) ≡ some x
        → IsValid (push_publish s i p)
    unfolding push_publish
    push_publish-IsValid fits alone st = record {
      two_cells = v.two_cells;
      popped_first = v.popped_first;
      within_cap = v.within_cap;
      counted = v.counted;
      bounded = bounded';
      no_lag = no_lag';
      free = free';
      busy = busy';
      producers_ok =
          set_at-all (ProducerOk ring' s.claimed (released s + s.cap)) s.producers i
            (Producer.returned true) tt
            (λ j ne.
              ProducerOk-same s.ring s.claimed ring' s.claimed (s.producers j) _ _ (omega arith)
                (omega arith)
                (λ q own a b e. (
                  a,
                  same q (omega (arith, (released-dequeue v).0)) b
                      (λ eq. alone j ne (subst (Owns (s.producers j)) eq own)),
                ))
                (v.producers_ok j));
      distinct =
          set_at-distinct s.producers i (Producer.returned true) v.distinct (λ j q ne e own. e);
      consumer_ok =
          ConsumerOk-same s.ring s.claimed ring' s.claimed s.consumer refl (omega arith)
            (λ q a b e. same q a b (claimed_cell q a b e)) v.consumer_ok;
      in_order = v.in_order;
    }
      where
        ring' : Ring T
        ring' = (push_publish s i p).ring

        published : add_size p 1 ≡ suc p
        published = omega (arith, claim.1)

        at_cell : {k : ℕ} → k ≡ p % s.cap → ring'.seq k ≡ suc p
        at_cell e = set_at_self s.seq (p % s.cap) (add_size p 1) e ∙ published

        elsewhere : {k : ℕ} → k ≢ p % s.cap → ring'.seq k ≡ s.seq k
        elsewhere ne = set_at_ne s.seq (p % s.cap) (add_size p 1) ne

        same :
            (q : ℕ)
            → released s ≤ q
            → q < s.enqueue_pos
            → q ≢ p
            → SameCell s.ring s.claimed ring' s.claimed q
        same q a b ne = (elsewhere (other_cell q a b ne), refl, refl)

        bounded' : (k : ℕ) → k < s.cap → ring'.seq k ≤ s.enqueue_pos + s.cap
        bounded' k h = elim (ℕ_discrete k (p % s.cap)) [
          | yes e ↦ omega (arith, at_cell e, claim.1)
          | no ne ↦ omega (arith, elsewhere ne, v.bounded k h)
        ]

        no_lag' : (q : ℕ) → q < released s + s.cap → q ≤ ring'.seq (q % s.cap)
        no_lag' q h = elim (ℕ_discrete (q % s.cap) (p % s.cap)) [
          | yes e ↦ omega (arith, at_cell e, v.no_lag q h, ap s.seq e, claim.2)
          | no ne ↦ omega (arith, elsewhere ne, v.no_lag q h)
        ]

        free' : (q : ℕ) → s.enqueue_pos ≤ q → q < released s + s.cap → ring'.seq (q % s.cap) ≡ q
        free' q a b =
            let d = released-dequeue v in
            elsewhere (
              window_ne s.cap (released s) q p (omega (arith, d.0, v.popped_first)) b
                (omega (arith, d.0, claim.0)) (omega (arith, v.within_cap, claim.1))
                (omega (arith, claim.1)))
            ∙ v.free q a b

        busy' : (q : ℕ) → s.dequeue_pos ≤ q → q < s.enqueue_pos → IsBusy ring' s.claimed q
        busy' q a b = elim (ℕ_discrete q p) [
          | yes e ↦ inr (
            at_cell (ap (λ n. n % s.cap) e) ∙ ap suc (sym e),
            ap (λ n. s.storage (n % s.cap)) e ∙ st ∙ sym (ap (get_elem? s.claimed) e ∙ claim.3),
          )
          | no ne ↦
              IsBusy-same s.ring s.claimed ring' s.claimed q
                (same q (omega (arith, (released-dequeue v).0)) b ne) (v.busy q a b)
        ]
