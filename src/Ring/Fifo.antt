-- ===== src/Ring/Fifo.antt =====
-- MpscRingAny.hpp as a whole: any schedule of any number of producers and one consumer.
use native.Mathlib.Nat.{mod-eq_of_lt}
use native.Mathlib.Decide.{dec_lt}
use log_it_cpp.Base.{
  ℕ, ◌+◌, ◌%◌, ◌≤◌, ◌<◌, ◌≡◌, ◌≢◌, refl, sym, ap, subst, ◌∙◌, inl, inr, Bool, false, List, [], ◌∷◌,
  ◌++◌, arith, length, length-take, length-drop, drop, take-append-drop, Bool-cases,
}
use log_it_cpp.Base.Ints.{pos, ltb_ℤ}
use log_it_cpp.Ring.{
  Producer, Consumer, System, Event, push_call, push_step, pop_call, pop_step, diff, is_zero,
  set_at, init, step, run, push_go, push_read,
}
use log_it_cpp.Ring.Window.{diff_negative→lt, set_at_self}
use log_it_cpp.Ring.Invariant.{
  released, ProducerOk, ConsumerOk, IsValid, Fits, AllFit, released-dequeue,
}
use log_it_cpp.Ring.Push.{cell_seq-lt}
use log_it_cpp.Ring.Claim.{push_go-IsValid, push_begin-IsValid}
use log_it_cpp.Ring.Pop.{pop_go-IsValid, pop_begin-IsValid}

pub init-IsValid : (T : Type 0) (capacity : ℕ) → IsValid (init T capacity)
unfolding init
init-IsValid T capacity = record {
  two_cells = ground arith;
  popped_first = omega arith;
  within_cap = omega arith;
  counted = refl;
  bounded = λ k h. omega arith;
  no_lag = λ p h. omega (arith, own_cell p h);
  free = λ p a h. own_cell p h;
  busy = λ p a h. absurd (omega arith);
  producers_ok = λ i. tt;
  distinct = λ i j p ne a b. a;
  consumer_ok = tt;
  in_order = refl;
}
  where
    own_cell : (p : ℕ) → p < 0 + (init T capacity).cap → p % (init T capacity).cap ≡ p
    own_cell p h = mod-eq_of_lt (let h' : p < (init T capacity).cap = omega arith in h')

module _ {T : Type 0} where
  step-IsValid : (s : System T) (e : Event T) → Fits s → IsValid s → IsValid (step s e)
  unfolding step
  step-IsValid s (push_call i x) fits v = push_begin-IsValid s i x (s.producers i) v
  step-IsValid s (push_step i fails) fits v = push_go-IsValid s i fails (s.producers i) v fits refl
  step-IsValid s pop_call fits v = pop_begin-IsValid s s.consumer v refl
  step-IsValid s (pop_step fails) fits v = pop_go-IsValid s fails s.consumer v fits refl

  pub run-IsValid :
      (s : System T) (es : List (Event T)) → AllFit s es → IsValid s → IsValid (run s es)
  unfolding run
  run-IsValid s [] fits v = v
  run-IsValid s (e ∷ es) fits v = run-IsValid (step s e) es fits.1 (step-IsValid s e fits.0 v)

  length-popped : (s : System T) → IsValid s → length s.popped ≡ released s
  length-popped s v =
      ap length v.in_order
      ∙ omega (
        arith,
        length-take (released s) s.claimed,
        v.counted,
        v.popped_first,
        (released-dequeue v).0,
      )

  -- What the ring promises: the values come out in the order in which their slots were won, each
  -- at most once, at most `cap` of them are in the ring, and no empty cell is ever read.
  pub record IsFifo (s : System T) : Type 0 where
    pub waiting : List T
    pub in_order : s.claimed ≡ s.popped ++ waiting
    pub bounded : length waiting ≤ s.cap
    pub no_fault : s.consumer ≢ Consumer.fault

  not_fault : (s : System T) → IsValid s → s.consumer ≢ Consumer.fault
  not_fault s v e = subst (ConsumerOk s.ring s.claimed) e v.consumer_ok

  valid-IsFifo : (s : System T) → IsValid s → IsFifo s
  valid-IsFifo s v = record {
    waiting = drop (released s) s.claimed;
    in_order =
        sym (take-append-drop (released s) s.claimed)
        ∙ ap (λ xs. xs ++ drop (released s) s.claimed) (sym v.in_order);
    bounded = omega (arith, length-drop (released s) s.claimed, v.counted, v.within_cap);
    no_fault = not_fault s v;
  }

  -- Every schedule of a new ring keeps the promise.
  pub run-init-IsFifo :
      (capacity : ℕ) (es : List (Event T))
      → AllFit (init T capacity) es
      → IsFifo (run (init T capacity) es)
  run-init-IsFifo capacity es fits =
      valid-IsFifo _ (run-IsValid (init T capacity) es fits (init-IsValid T capacity))

  read_outcome :
      (s : System T) (i p : ℕ) (x : T)
      → IsValid s
      → Fits s
      → p ≤ s.enqueue_pos
      → (push_read s i p x).producers i ≡ Producer.returned false
      → s.enqueue_pos ≡ released s + s.cap
  unfolding push_read
  read_outcome s i p x v fits le e = elim (Bool-cases (is_zero (diff (s.seq (p % s.cap)) p))) [
    | inl z ↦ absurd (not_refused (Producer.at_cas p x) (rw z at e) (λ q. cc))
    | inr z ↦ elim (Bool-cases (ltb_ℤ (diff (s.seq (p % s.cap)) p) (pos 0))) [
      | inl n ↦
          let behind = diff_negative→lt _ p (cell_seq-lt s p v fits) (omega arith) n in
          elim (dec_lt p (released s + s.cap)) [
            | yes room ↦ absurd (omega (arith, v.no_lag p room))
            | no full ↦ omega (arith, v.within_cap)
          ]
      | inr n ↦ absurd (not_refused (Producer.at_load x) (rw (z, n) at e) (λ q. cc))
    ]
  ]
    where
      not_refused :
          (y : Producer T)
          → set_at s.producers i y i ≡ Producer.returned false
          → y ≢ Producer.returned false
          → ⊥
      not_refused y h ne = ne (sym (set_at_self s.producers i y refl) ∙ h)

  -- A producer gives up only when every cell of the ring holds a value that `try_pop` has not yet
  -- handed out and given back: the ring was full when the producer looked.
  pub refused_only_when_full :
      (capacity : ℕ) (es : List (Event T)) (i p : ℕ) (x : T) (fails : Bool)
      → AllFit (init T capacity) es
      → Fits (run (init T capacity) es)
      → (run (init T capacity) es).producers i ≡ Producer.at_read p x
      → (step (run (init T capacity) es) (push_step i fails)).producers i ≡ Producer.returned false
      → length (run (init T capacity) es).claimed
        ≡ length (run (init T capacity) es).popped + (run (init T capacity) es).cap
  unfolding step push_go
  refused_only_when_full capacity es i p x fails fits now at refused = omega (
    arith,
    v.counted,
    length-popped s v,
    read_outcome s i p x v now
        (subst (ProducerOk s.ring s.claimed (released s + s.cap)) at (v.producers_ok i))
        (subst (λ y. (push_go s i fails y).producers i ≡ Producer.returned false) at refused),
  )
    where
      s : System T
      s = run (init T capacity) es

      v : IsValid s
      v = run-IsValid (init T capacity) es fits (init-IsValid T capacity)
