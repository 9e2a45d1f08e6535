-- ===== src/Executor/Single/Laws.antt =====
-- SingleThreadExecutor.hpp: order, completion, shutdown and the queue bound.
use log_it_cpp.Base.{
  ◌≡◌, refl, sym, ap, ◌∙◌, true, ◌&&◌, none, some, List, [], ◌∷◌, ◌++◌, append-nil, arith, ◌==◌,
  length, if◌then◌else◌, if_elim,
}
use log_it_cpp.Executor.{
  Worker, idle, running, exited, Executor, init, is_empty, enqueue, is_full, overflow,
}
use log_it_cpp.Executor.History.{
  IsFaithful, init-IsFaithful, same_history, started_of, removed_tasks, current, enqueue-IsFaithful,
  overflow-IsFaithful, worker_go-IsFaithful, wake-IsFaithful,
}
use log_it_cpp.Executor.Single.{
  add_task, can_go, wake_producer, wait_done, shutdown, set_max_queue_size, set_queue_policy,
  reset_dropped_tasks, Call, adds, wakes, works, shuts_down, sets_max, sets_policy, resets, step,
  run,
}

module _ {T : Type 0} where
  step-IsFaithful : (s : Executor T) (c : Call T) → IsFaithful s → IsFaithful (step s c)
  unfolding step add_task wake_producer shutdown set_max_queue_size set_queue_policy
      reset_dropped_tasks
  step-IsFaithful s (adds none) v = v
  step-IsFaithful s (adds (some t)) v =
      if_elim IsFaithful s.stop s
        (if is_full s then overflow s t s.overflow_policy else enqueue s t) (λ h. v)
        λ h.
          if_elim IsFaithful (is_full s) (overflow s t s.overflow_policy) (enqueue s t)
            (λ full. overflow-IsFaithful s t s.overflow_policy h v)
            (λ room. enqueue-IsFaithful s t h v)
  step-IsFaithful s wakes v = wake-IsFaithful s (can_go s) s.waiting v
  step-IsFaithful s works v = worker_go-IsFaithful s s.worker refl v
  step-IsFaithful s shuts_down v =
      if_elim IsFaithful s.shutdown_done s (record s { shutdown_done = true; stop = true }) (λ h. v)
        (λ h.
          same_history s true true s.max_queue_size s.dropped_tasks s.overflow_policy (λ x. refl) v)
  step-IsFaithful s (sets_max n) v =
      if_elim IsFaithful s.stop s (record s { max_queue_size = n }) (λ h. v)
        (λ h. same_history s s.stop s.shutdown_done n s.dropped_tasks s.overflow_policy (λ x. x) v)
  step-IsFaithful s (sets_policy p) v =
      if_elim IsFaithful s.stop s (record s { overflow_policy = p }) (λ h. v)
        (λ h. same_history s s.stop s.shutdown_done s.max_queue_size s.dropped_tasks p (λ x. x) v)
  step-IsFaithful s resets v =
      same_history s s.stop s.shutdown_done s.max_queue_size 0 s.overflow_policy (λ x. x) v

  run-IsFaithful : (s : Executor T) (cs : List (Call T)) → IsFaithful s → IsFaithful (run s cs)
  unfolding run
  run-IsFaithful s [] v = v
  run-IsFaithful s (c ∷ cs) v = run-IsFaithful (step s c) cs (step-IsFaithful s c v)

  -- In every run of a new executor the tasks leave the queue in the order they entered it, and the
  -- started ones run to the end one after another.
  pub run-init-IsFaithful : (cs : List (Call T)) → IsFaithful (run (init T) cs)
  run-init-IsFaithful cs = run-IsFaithful (init T) cs init-IsFaithful

  wait_done_parts : (s : Executor T) → wait_done s ≡ true → (s.queue ≡ []) × (s.active_tasks ≡ 0)
  unfolding wait_done
  wait_done_parts s h = go s.queue h
    where
      go :
          (q : List T)
          → (is_empty q && s.active_tasks == 0) ≡ true
          → (q ≡ []) × (s.active_tasks ≡ 0)
      go [] h = (refl, ground (arith, h))
      go (t ∷ ts) h = cc

  current-nil : (w : Worker T) → length (current w) ≡ 0 → current w ≡ []
  current-nil idle h = refl
  current-nil (running t) h = absurd (omega (arith, h))
  current-nil exited h = refl

  -- When `wait()` can return, every task that entered the queue was dropped by the policy or has
  -- run to the end, and those that ran completed in the order they left the queue.
  pub wait_done-completed :
      (cs : List (Call T))
      → wait_done (run (init T) cs) ≡ true
      → ((run (init T) cs).accepted ≡ removed_tasks (run (init T) cs).removed)
        × (started_of (run (init T) cs).removed ≡ (run (init T) cs).completed)
  wait_done-completed cs done = (
    v.in_order ∙ ap (◌++◌ (removed_tasks s.removed)) parts.0 ∙ append-nil _,
    v.each_once
        ∙ ap (◌++◌ s.completed) (current-nil s.worker (sym v.active ∙ parts.1))
        ∙ append-nil s.completed,
  )
    where
      s : Executor T
      s = run (init T) cs

      v : IsFaithful s
      v = run-init-IsFaithful cs

      parts : (s.queue ≡ []) × (s.active_tasks ≡ 0)
      parts = wait_done_parts s done
