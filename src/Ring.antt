-- ===== src/Ring.antt =====
-- detail/MpscRingAny.hpp: the bounded lock-free ring with many producers and one consumer.
-- Each atomic access is one step, and a schedule is a list of steps of any threads, so every
-- sequentially consistent interleaving is a schedule. `compare_exchange_weak` may fail for no
-- reason: the schedule says when. Positions are `std::size_t` and wrap.
-- A cell index is any number; the code uses those below `m_cap`. `storage` is `none` where no
-- object lives. `claimed` and `popped` record, for the statements, the values whose slot a producer
-- won, and those that `try_pop` handed out. The move operations of a ring are left out.
pub mod Window
pub mod Invariant
pub mod Push
pub mod Publish
pub mod Claim
pub mod Pop
pub mod Fifo
pub mod Progress
mod Tests
use log_it_cpp.Base.{
  ℕ, ◌+◌, ◌-◌, ◌%◌, ◌^◌, Bool, true, false, List, [], ◌∷◌, ◌++◌, Option, none, some, ltb, ◌==◌,
  if◌then◌else◌,
}
use log_it_cpp.Base.Ints.{ℤ, pos, negsuc, ◌-ℤ◌, ltb_ℤ}
use log_it_cpp.Base.Words.{size_mod, add_size}

pub record Ring (T : Type 0) : Type 0 where
  pub cap : ℕ
  pub seq : ℕ → ℕ
  pub storage : ℕ → Option T
  pub enqueue_pos : ℕ
  pub dequeue_pos : ℕ

-- Where a call of `try_push(v)` stands: what it does next.
pub data Producer (T : Type 0) : Type 0 where
  ready : Producer T
  at_load : T → Producer T
  at_read : ℕ → T → Producer T
  at_cas : ℕ → T → Producer T
  at_construct : ℕ → T → Producer T
  at_publish : ℕ → T → Producer T
  returned : Bool → Producer T

-- Where a call of `try_pop` stands. `fault` is a read of a cell with no object.
pub data Consumer (T : Type 0) : Type 0 where
  ready : Consumer T
  at_load : Consumer T
  at_read : ℕ → Consumer T
  at_cas : ℕ → Consumer T
  at_move : ℕ → Consumer T
  at_release : ℕ → T → Consumer T
  returned : Option T → Consumer T
  fault : Consumer T

pub record System (T : Type 0) : Type 0 where
  pub ring : Ring T
  pub open ring use *
  pub producers : ℕ → Producer T
  pub consumer : Consumer T
  pub claimed : List T
  pub popped : List T

pub data Event (T : Type 0) : Type 0 where
  -- producer `i` calls `try_push(v)`
  push_call : ℕ → T → Event T
  -- producer `i` goes on by one atomic access; the flag makes a weak exchange fail
  push_step : ℕ → Bool → Event T
  pop_call : Event T
  pop_step : Bool → Event T

abbrev pub set_at {ℓ} : {A : Type ℓ} → (ℕ → A) → ℕ → A → ℕ → A
set_at f k a j = if j == k then a else f j

-- `static_cast<std::intptr_t>(x)`.
abbrev pub to_intptr : ℕ → ℤ
to_intptr x = if ltb x (2 ^ 63) then pos x else negsuc (size_mod - x - 1)

unfoldable pub diff : ℕ → ℕ → ℤ
diff seq expected = to_intptr seq -ℤ to_intptr expected

abbrev pub is_zero : ℤ → Bool
is_zero (pos n) = n == 0
is_zero (negsuc n) = false

-- `MpscRingAny(capacity)`: cell `i` starts with sequence number `i`.
pub init : (T : Type 0) → ℕ → System T
init T capacity = record {
  ring = record {
    cap = if ltb capacity 2 then 2 else capacity;
    seq = λ i. i;
    storage = λ i. none;
    enqueue_pos = 0;
    dequeue_pos = 0;
  };
  producers = λ i. Producer.ready;
  consumer = Consumer.ready;
  claimed = [];
  popped = [];
}

module _ {T : Type 0} where
  abbrev pub with_producer : System T → ℕ → Producer T → System T
  with_producer s i p = record s { producers = set_at s.producers i p }

  abbrev pub with_consumer : System T → Consumer T → System T
  with_consumer s c = record s { consumer = c }

  -- The branch on `diff` after reading the cell's sequence number.
  pub push_read : System T → ℕ → ℕ → T → System T
  push_read s i p v =
      let d = diff (s.seq (p % s.cap)) p in
      if is_zero d
      then with_producer s i (Producer.at_cas p v)
      else if ltb_ℤ d (pos 0)
      then with_producer s i (Producer.returned false)
      else with_producer s i (Producer.at_load v)

  -- A won exchange claims position `p`; a lost one reloads the position.
  pub push_cas : System T → ℕ → ℕ → T → Bool → System T
  push_cas s i p v fails =
      if fails
      then with_producer s i (Producer.at_read s.enqueue_pos v)
      else if s.enqueue_pos == p
      then record s {
        ring = record (s.ring) { enqueue_pos = add_size p 1 };
        producers = set_at s.producers i (Producer.at_construct p v);
        claimed = s.claimed ++ v ∷ [];
      }
      else with_producer s i (Producer.at_read s.enqueue_pos v)

  pub push_construct : System T → ℕ → ℕ → T → System T
  push_construct s i p v = record s {
    ring = record (s.ring) { storage = set_at s.storage (p % s.cap) (some v) };
    producers = set_at s.producers i (Producer.at_publish p v);
  }

  pub push_publish : System T → ℕ → ℕ → System T
  push_publish s i p = record s {
    ring = record (s.ring) { seq = set_at s.seq (p % s.cap) (add_size p 1) };
    producers = set_at s.producers i (Producer.returned true);
  }

  pub push_go : System T → ℕ → Bool → Producer T → System T
  push_go s i fails Producer.ready = s
  push_go s i fails (Producer.at_load v) = with_producer s i (Producer.at_read s.enqueue_pos v)
  push_go s i fails (Producer.at_read p v) = push_read s i p v
  push_go s i fails (Producer.at_cas p v) = push_cas s i p v fails
  push_go s i fails (Producer.at_construct p v) = push_construct s i p v
  push_go s i fails (Producer.at_publish p v) = push_publish s i p
  push_go s i fails (Producer.returned b) = s

  -- A thread starts a call only when it is in none.
  pub push_begin : System T → ℕ → T → Producer T → System T
  push_begin s i v Producer.ready = with_producer s i (Producer.at_load v)
  push_begin s i v (Producer.returned b) = with_producer s i (Producer.at_load v)
  push_begin s i v _ = s

  pub pop_read : System T → ℕ → System T
  pop_read s p =
      if is_zero (diff (s.seq (p % s.cap)) (add_size p 1))
      then with_consumer s (Consumer.at_cas p)
      else with_consumer s (Consumer.returned none)

  pub pop_cas : System T → ℕ → Bool → System T
  pop_cas s p fails =
      if fails
      then with_consumer s Consumer.at_load
      else if s.dequeue_pos == p
      then record s {
        ring = record (s.ring) { dequeue_pos = add_size p 1 };
        consumer = Consumer.at_move p;
      }
      else with_consumer s Consumer.at_load

  -- `out = std::move(*p); p->~T();`
  pub pop_move : System T → ℕ → Option T → System T
  pop_move s p none = with_consumer s Consumer.fault
  pop_move s p (some x) = record s {
    ring = record (s.ring) { storage = set_at s.storage (p % s.cap) none };
    consumer = Consumer.at_release p x;
  }

  pub pop_release : System T → ℕ → T → System T
  pop_release s p x = record s {
    ring = record (s.ring) { seq = set_at s.seq (p % s.cap) (add_size p s.cap) };
    consumer = Consumer.returned (some x);
    popped = s.popped ++ x ∷ [];
  }

  pub pop_go : System T → Bool → Consumer T → System T
  pop_go s fails Consumer.ready = s
  pop_go s fails Consumer.at_load = with_consumer s (Consumer.at_read s.dequeue_pos)
  pop_go s fails (Consumer.at_read p) = pop_read s p
  pop_go s fails (Consumer.at_cas p) = pop_cas s p fails
  pop_go s fails (Consumer.at_move p) = pop_move s p (s.storage (p % s.cap))
  pop_go s fails (Consumer.at_release p x) = pop_release s p x
  pop_go s fails (Consumer.returned r) = s
  pop_go s fails Consumer.fault = s

  pub pop_begin : System T → Consumer T → System T
  pop_begin s Consumer.ready = with_consumer s Consumer.at_load
  pop_begin s (Consumer.returned r) = with_consumer s Consumer.at_load
  pop_begin s _ = s

  pub step : System T → Event T → System T
  step s (push_call i v) = push_begin s i v (s.producers i)
  step s (push_step i fails) = push_go s i fails (s.producers i)
  step s pop_call = pop_begin s s.consumer
  step s (pop_step fails) = pop_go s fails s.consumer

  pub run : System T → List (Event T) → System T
  run s [] = s
  run s (e ∷ es) = run (step s e) es
