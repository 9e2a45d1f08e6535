-- ===== src/Ring/Tests.antt =====
-- MpscRingAny.hpp on small schedules.
use log_it_cpp.Base.{
  ℕ, ◌+◌, ◌≡◌, refl, true, false, some, List, [], ◌∷◌, ◌++◌, arith, length, replicate,
}
use log_it_cpp.Ring.{
  Producer, Consumer, Event, push_call, push_step, pop_call, pop_step, init, step, run, diff,
  push_go, push_begin, push_read, push_cas, push_construct, push_publish, pop_begin,
}
use log_it_cpp.Base.Ints.{◌-ℤ◌}
use log_it_cpp.Ring.Fifo.{
  IsFifo, init-IsValid, run-IsValid, run-init-IsFifo, refused_only_when_full,
}
use log_it_cpp.Ring.Progress.{push_alone, pop_alone}

abbrev push_whole : ℕ → ℕ → List (Event ℕ)
push_whole i x = push_call i x ∷ replicate 5 (push_step i false)

abbrev pushed_twice : List (Event ℕ)
pushed_twice = push_whole 0 10 ++ push_whole 1 11

run-pushed_twice :
    let s = run (init ℕ 2) pushed_twice in (s.claimed ≡ 10 ∷ 11 ∷ []) × (s.enqueue_pos ≡ 2)
unfolding init run step diff push_go push_begin push_read push_cas push_construct push_publish ◌-ℤ◌
run-pushed_twice = (refl, refl)

run-init-IsFifo_example : IsFifo (run (init ℕ 2) (push_whole 0 10 ++ pop_call ∷ []))
unfolding init run step diff push_go push_begin push_read push_cas push_construct push_publish ◌-ℤ◌
    pop_begin
run-init-IsFifo_example = run-init-IsFifo 2 (push_whole 0 10 ++ pop_call ∷ []) (omega arith)

-- The ring of two cells is full, and producer 2 looks.
abbrev full_ring : List (Event ℕ)
full_ring = pushed_twice ++ push_call 2 12 ∷ push_step 2 false ∷ []

refused_only_when_full_example :
    length (run (init ℕ 2) full_ring).claimed
    ≡ length (run (init ℕ 2) full_ring).popped + (run (init ℕ 2) full_ring).cap
unfolding init run step diff push_go push_begin push_read push_cas push_construct push_publish ◌-ℤ◌
refused_only_when_full_example =
    refused_only_when_full 2 full_ring 2 2 12 false (omega arith) (omega arith) refl refl

push_alone_test :
    let t = run (run (init ℕ 2) (push_call 0 10 ∷ [])) (replicate 5 (push_step 0 false)) in
    (t.producers 0 ≡ Producer.returned true) × (t.claimed ≡ 10 ∷ [])
unfolding init run step push_begin
push_alone_test =
    push_alone (run (init ℕ 2) (push_call 0 10 ∷ [])) 0 10
      (run-IsValid (init ℕ 2) (push_call 0 10 ∷ []) (omega arith) (init-IsValid ℕ 2)) (omega arith)
      refl (omega arith)

abbrev one_pushed : List (Event ℕ)
one_pushed = push_whole 0 10 ++ pop_call ∷ []

pop_alone_example :
    let t = run (run (init ℕ 2) one_pushed) (replicate 5 (pop_step false)) in
    (t.consumer ≡ Consumer.returned (some 10)) × (t.popped ≡ 10 ∷ [])
unfolding init run step diff push_go push_begin push_read push_cas push_construct push_publish ◌-ℤ◌
    pop_begin
pop_alone_example =
    pop_alone (run (init ℕ 2) one_pushed) 10
      (run-IsValid (init ℕ 2) one_pushed (omega arith) (init-IsValid ℕ 2)) (omega arith) refl
      (omega arith) refl refl
