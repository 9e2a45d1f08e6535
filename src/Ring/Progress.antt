-- ===== src/Ring/Progress.antt =====
-- MpscRingAny.hpp: a call that runs undisturbed ends, with success where there is room or a value.
use log_it_cpp.Base.{
  ℕ, suc, ◌+◌, ◌%◌, ◌^◌, ◌<◌, ◌≡◌, refl, ap, ◌∙◌, inl, inr, true, false, Option, none, some, List,
  [], ◌∷◌, ◌++◌, arith, ◌==◌, get_elem?, replicate,
}
use log_it_cpp.Base.Words.{add_size}
use log_it_cpp.Ring.{
  Producer, Consumer, System, Event, push_step, pop_step, diff, is_zero, set_at, step, run,
  with_producer, with_consumer, push_go, push_read, push_cas, push_construct, push_publish, pop_go,
  pop_read, pop_cas, pop_move, pop_release,
}
use log_it_cpp.Ring.Window.{diff_zero, set_at_self}
use log_it_cpp.Ring.Invariant.{released, IsValid, Fits}

equal_diff : (a b : ℕ) → a ≡ b → b < 2 ^ 63 → is_zero (diff a b) ≡ true
equal_diff a b e h = diff_zero a b (omega arith) h ∙ ground (arith, e)

module _ {T : Type 0} where
  step_push :
      (s : System T) (i : ℕ) (y : Producer T)
      → s.producers i ≡ y
      → step s (push_step i false) ≡ push_go s i false y
  unfolding step
  step_push s i y e = ap (push_go s i false) e

  run_next :
      (s : System T) {t : System T} (e : Event T) (es : List (Event T))
      → step s e ≡ t
      → run s (e ∷ es) ≡ run t es
  unfolding run
  run_next s e es h = ap (λ u. run u es) h

  run_done : (s : System T) → run s [] ≡ s
  unfolding run
  run_done s = refl

  read_free :
      (s : System T) (i p : ℕ) (x : T)
      → s.seq (p % s.cap) ≡ p
      → p < 2 ^ 63
      → push_read s i p x ≡ with_producer s i (Producer.at_cas p x)
  unfolding push_read
  read_free s i p x e h = rw (equal_diff (s.seq (p % s.cap)) p e h)

  won_cas :
      (s : System T) (i : ℕ) (x : T)
      → push_cas s i s.enqueue_pos x false ≡ record s {
        ring = record (s.ring) { enqueue_pos = add_size s.enqueue_pos 1 };
        producers = set_at s.producers i (Producer.at_construct s.enqueue_pos x);
        claimed = s.claimed ++ x ∷ [];
      }
  unfolding push_cas
  won_cas s i x = rw (let h : (s.enqueue_pos == s.enqueue_pos) ≡ true = ground arith in h)

  -- A `try_push` that starts on a ring with room and runs with no other thread in between returns
  -- true after its five atomic accesses, and its value is the next in order.
  pub push_alone :
      (s : System T) (i : ℕ) (x : T)
      → IsValid s
      → Fits s
      → s.producers i ≡ Producer.at_load x
      → s.enqueue_pos < released s + s.cap
      → let t = run s (replicate 5 (push_step i false)) in
        (t.producers i ≡ Producer.returned true) × (t.claimed ≡ s.claimed ++ x ∷ [])
  unfolding push_go push_construct push_publish
  push_alone s i x v fits at room = (
    ap (λ (u : System T). u.producers i) ends
        ∙ set_at_self s4.producers i (Producer.returned true) refl,
    ap (λ (u : System T). u.claimed) ends ∙ same_claims,
  )
    where
      p : ℕ
      p = s.enqueue_pos

      s1 : System T
      s1 = with_producer s i (Producer.at_read p x)

      s2 : System T
      s2 = with_producer s1 i (Producer.at_cas p x)

      s3 : System T
      s3 = push_cas s2 i p x false

      s4 : System T
      s4 = push_construct s3 i p x

      s5 : System T
      s5 = push_publish s4 i p

      mine : (f : ℕ → Producer T) (y : Producer T) → set_at f i y i ≡ y
      mine f y = set_at_self f i y refl

      constructing : s3.producers i ≡ Producer.at_construct p x
      constructing =
          ap (λ (u : System T). u.producers i) (won_cas s2 i x)
          ∙ mine s2.producers (Producer.at_construct p x)

      ends : run s (replicate 5 (push_step i false)) ≡ s5
      ends =
          run_next _ _ _ (step_push s i (Producer.at_load x) at)
          ∙ run_next _ _ _ (
              step_push s1 i (Producer.at_read p x) (mine s.producers (Producer.at_read p x))
              ∙ read_free s1 i p x (v.free p (omega arith) room) (omega arith))
          ∙ run_next _ _ _
              (step_push s2 i (Producer.at_cas p x) (mine s1.producers (Producer.at_cas p x)))
          ∙ run_next _ _ _ (step_push s3 i (Producer.at_construct p x) constructing)
          ∙ run_next _ _ _ (
              step_push s4 i (Producer.at_publish p x)
                (mine s3.producers (Producer.at_publish p x)))
          ∙ run_done s5

      same_claims : s5.claimed ≡ s.claimed ++ x ∷ []
      same_claims = ap (λ (u : System T). u.claimed) (won_cas s2 i x)

  read_published :
      (s : System T) (p : ℕ)
      → s.seq (p % s.cap) ≡ suc p
      → p + 1 < 2 ^ 63
      → pop_read s p ≡ with_consumer s (Consumer.at_cas p)
  unfolding pop_read
  read_published s p e h =
      rw (equal_diff (s.seq (p % s.cap)) (add_size p 1) (omega (arith, e)) (omega arith))

  won_pop :
      (s : System T)
      → pop_cas s s.dequeue_pos false ≡ record s {
        ring = record (s.ring) { dequeue_pos = add_size s.dequeue_pos 1 };
        consumer = Consumer.at_move s.dequeue_pos;
      }
  unfolding pop_cas
  won_pop s = rw (let h : (s.dequeue_pos == s.dequeue_pos) ≡ true = ground arith in h)

  step_pop :
      (s : System T) (c : Consumer T) → s.consumer ≡ c → step s (pop_step false) ≡ pop_go s false c
  unfolding step
  step_pop s c e = ap (pop_go s false) e

  -- A `try_pop` that starts on a ring whose oldest value is published, and runs with no other
  -- thread in between, returns that value after its five atomic accesses.
  pub pop_alone :
      (s : System T) (x : T)
      → IsValid s
      → Fits s
      → s.consumer ≡ Consumer.at_load
      → s.dequeue_pos < s.enqueue_pos
      → s.seq (s.dequeue_pos % s.cap) ≡ suc s.dequeue_pos
      → get_elem? s.claimed s.dequeue_pos ≡ some x
      → let t = run s (replicate 5 (pop_step false)) in
        (t.consumer ≡ Consumer.returned (some x)) × (t.popped ≡ s.popped ++ x ∷ [])
  unfolding pop_go pop_release
  pop_alone s x v fits at some_left published value =
      (ap (λ (u : System T). u.consumer) ends, ap (λ (u : System T). u.popped) ends)
    where
      p : ℕ
      p = s.dequeue_pos

      s1 : System T
      s1 = with_consumer s (Consumer.at_read p)

      s2 : System T
      s2 = with_consumer s1 (Consumer.at_cas p)

      s3 : System T
      s3 = record s2 {
        ring = record (s2.ring) { dequeue_pos = add_size p 1 };
        consumer = Consumer.at_move p;
      }

      s4 : System T
      s4 = record s3 {
        ring = record (s3.ring) { storage = set_at s3.storage (p % s3.cap) none };
        consumer = Consumer.at_release p x;
      }

      stored : s.storage (p % s.cap) ≡ some x
      stored = elim (v.busy p (omega arith) some_left) [
        | inl e ↦ absurd (omega (arith, published, e))
        | inr (e, st) ↦ st ∙ value
      ]

      moved : (o : Option T) → o ≡ some x → pop_move s3 p o ≡ s4
      moved none e = cc
      moved (some y) e = unfold pop_move in rw (let h : y ≡ x = cc in h)

      ends : run s (replicate 5 (pop_step false)) ≡ pop_release s4 p x
      ends =
          run_next _ _ _ (step_pop s Consumer.at_load at)
          ∙ run_next _ _ _
              (step_pop s1 (Consumer.at_read p) refl ∙ read_published s1 p published (omega arith))
          ∙ run_next _ _ _ (step_pop s2 (Consumer.at_cas p) refl ∙ won_pop s2)
          ∙ run_next _ _ _ (step_pop s3 (Consumer.at_move p) refl ∙ moved _ stored)
          ∙ run_next _ _ _ (step_pop s4 (Consumer.at_release p x) refl)
          ∙ run_done _
