-- ===== src/Executor/Single/Tests.antt =====
-- Concrete runs of the SingleThreadExecutor, with numbers for tasks.
use log_it_cpp.Base.{
  ℕ, ◌+◌, ◌*◌, ◌≤◌, ◌≡◌, refl, some, List, [], ◌∷◌, ◌++◌, arith, length, replicate,
}
use log_it_cpp.Executor.{
  Executor, init, drop_oldest, enqueue, drop_front, overflow, take_front, worker_go, wake,
}
use log_it_cpp.Executor.History.{IsFaithful, removed_tasks, started_of}
use log_it_cpp.Executor.Single.{
  add_task, can_go, wake_producer, set_queue_policy, wait_done, shutdown, set_max_queue_size, Call,
  adds, wakes, works, shuts_down, sets_max, sets_policy, step, run,
}
use log_it_cpp.Executor.Single.Laws.{run-init-IsFaithful, wait_done-completed}
use log_it_cpp.Executor.Single.Bounds.{queue_within_limit}
use log_it_cpp.Executor.Single.Shutdown.{shutdown_accepts_nothing, Drained, drains}

-- Three tasks under a limit of two, the oldest being dropped; two of them run.
abbrev dropping : List (Call ℕ)
dropping =
    sets_max 2
    ∷ sets_policy drop_oldest
    ∷ adds (some 1)
    ∷ adds (some 2)
    ∷ adds (some 3)
    ∷ works
    ∷ works
    ∷ works
    ∷ works
    ∷ []

dropping_test : (run (init ℕ) dropping).completed ≡ 2 ∷ 3 ∷ []
unfolding run step add_task can_go wake_producer shutdown set_max_queue_size set_queue_policy
    enqueue drop_front overflow take_front worker_go wake
dropping_test = refl

run-init-IsFaithful_test : IsFaithful (run (init ℕ) dropping)
run-init-IsFaithful_test = run-init-IsFaithful dropping

wait_done-completed_example :
    ((run (init ℕ) dropping).accepted ≡ removed_tasks (run (init ℕ) dropping).removed)
    × (started_of (run (init ℕ) dropping).removed ≡ (run (init ℕ) dropping).completed)
unfolding run step add_task can_go wake_producer shutdown set_max_queue_size set_queue_policy
    enqueue drop_front overflow take_front worker_go wake wait_done
wait_done-completed_example = wait_done-completed dropping refl

-- Four producers under a limit of two: two wait, and one of them gets in after the worker took a task.
abbrev blocking : List (Call ℕ)
blocking =
    adds (some 1) ∷ adds (some 2) ∷ adds (some 3) ∷ adds (some 4) ∷ works ∷ wakes ∷ wakes ∷ []

blocking_test :
    ((run (set_max_queue_size (init ℕ) 2) blocking).queue ≡ 2 ∷ 3 ∷ [])
    × ((run (set_max_queue_size (init ℕ) 2) blocking).waiting ≡ 4 ∷ [])
unfolding run step add_task can_go wake_producer shutdown set_max_queue_size set_queue_policy
    enqueue drop_front overflow take_front worker_go wake
blocking_test = (refl, refl)

queue_within_limit_example : length (run (set_max_queue_size (init ℕ) 2) blocking).queue ≤ 2
queue_within_limit_example = queue_within_limit 2 blocking (omega arith) (
  (λ n e. cc),
  ((λ n e. cc), ((λ n e. cc), ((λ n e. cc), ((λ n e. cc), ((λ n e. cc), ((λ n e. cc), tt)))))),
)

shutdown_accepts_nothing_test :
    (run (init ℕ) (blocking ++ shuts_down ∷ adds (some 5) ∷ wakes ∷ works ∷ [])).accepted
    ≡ (run (init ℕ) blocking).accepted
shutdown_accepts_nothing_test =
    shutdown_accepts_nothing blocking (adds (some 5) ∷ wakes ∷ works ∷ [])

abbrev stopped : Executor ℕ
stopped = run (init ℕ) (adds (some 1) ∷ adds (some 2) ∷ shuts_down ∷ [])

drains_test :
    Drained
      (run stopped (replicate (2 * length stopped.queue + 1) works))
      (stopped.completed ++ stopped.queue)
unfolding run step add_task can_go wake_producer shutdown set_max_queue_size set_queue_policy
    enqueue drop_front overflow take_front worker_go wake
drains_test = drains stopped refl refl
