-- ===== src/Executor/Task/Tests.antt =====
-- Concrete runs of the TaskExecutor, with numbers for tasks.
use log_it_cpp.Base.{ℕ, ◌≡◌, refl, none, some, List, [], ◌∷◌}
use log_it_cpp.Executor.{Executor, init, enqueue, drop_front, overflow, take_front, worker_go, wake}
use log_it_cpp.Executor.History.{IsFaithful}
use log_it_cpp.Executor.Single
use log_it_cpp.Executor.Both.{both_runs-IsFaithful}
use log_it_cpp.Executor.Task.{
  add_task, can_go, wake_producer, set_queue_policy, shutdown, set_max_queue_size, Call, adds,
  wakes, works, shuts_down, sets_max, step, run,
}
use log_it_cpp.Executor.Task.Laws.{IsRotation, lifted_limit_strands_waiters}

abbrev serving : List (Call ℕ)
serving =
    adds (some 1)
    ∷ adds (some 2)
    ∷ works
    ∷ works
    ∷ works
    ∷ adds none
    ∷ works
    ∷ shuts_down
    ∷ works
    ∷ []

serving_test : (run (init ℕ) serving).completed ≡ 1 ∷ 2 ∷ []
unfolding run step add_task can_go wake_producer shutdown set_max_queue_size set_queue_policy
    enqueue drop_front overflow take_front worker_go wake
serving_test = refl

both_runs-IsFaithful_example :
    IsFaithful (Single.run (init ℕ) (Single.adds (some 1) ∷ Single.works ∷ []))
    × IsFaithful (run (init ℕ) serving)
both_runs-IsFaithful_example =
    both_runs-IsFaithful (Single.adds (some 1) ∷ Single.works ∷ []) serving

-- The second producer waits under a limit of one; then the limit is lifted and the queue drained.
abbrev one_waits : Executor ℕ
one_waits = run (init ℕ) (sets_max 1 ∷ adds (some 1) ∷ adds (some 2) ∷ [])

one_waits_test : one_waits.waiting ≡ 2 ∷ []
unfolding run step add_task can_go wake_producer shutdown set_max_queue_size set_queue_policy
    enqueue drop_front overflow take_front worker_go wake
one_waits_test = refl

abbrev drained_later : List (Call ℕ)
drained_later = works ∷ works ∷ wakes ∷ wakes ∷ []

lifted_limit_strands_waiters_example :
    IsRotation one_waits.waiting (run (set_max_queue_size one_waits 0) drained_later).waiting
unfolding run step add_task can_go wake_producer shutdown set_max_queue_size set_queue_policy
    enqueue drop_front overflow take_front worker_go wake
lifted_limit_strands_waiters_example =
    lifted_limit_strands_waiters one_waits drained_later refl (tt, (tt, (tt, (tt, tt))))
