-- ===== src/Executor/Single/Bounds.antt =====
-- SingleThreadExecutor.hpp: the queue keeps within its limit.
use log_it_cpp.Base.{
  ℕ, ◌+◌, ◌≤◌, ◌<◌, ◌≡◌, ◌≢◌, refl, ap, ◌∙◌, true, ◌&&◌, none, some, List, [], ◌∷◌, ◌++◌, arith,
  length, length-append, if◌then◌else◌, if_elim,
}
use log_it_cpp.Executor.{
  QueuePolicy, drop_newest, drop_oldest, block, Worker, idle, running, exited, Executor, init,
  is_empty, enqueue, drop_front, is_full, overflow, take_front, worker_go, wake,
}
use log_it_cpp.Executor.Single.{
  add_task, can_go, wake_producer, shutdown, set_max_queue_size, set_queue_policy,
  reset_dropped_tasks, Call, adds, wakes, works, shuts_down, sets_max, sets_policy, resets, step,
  run,
}

module _ {T : Type 0} where
  -- The queue holds at most the configured number of tasks (0 means any number).
  abbrev pub IsBounded : Executor T → Type 0
  IsBounded s = 0 < s.max_queue_size → length s.queue ≤ s.max_queue_size

  enqueue-IsBounded :
      (s : Executor T) (t : T)
      → (0 < s.max_queue_size → length s.queue < s.max_queue_size)
      → IsBounded (enqueue s t)
  unfolding enqueue
  enqueue-IsBounded s t h p = omega (arith, length-append s.queue (t ∷ []), h p)

  drop_front_size :
      (s : Executor T) (ts : List T)
      → s.queue ≡ ts
      → ((drop_front s ts).max_queue_size ≡ s.max_queue_size)
        × (0 < length ts → length (drop_front s ts).queue + 1 ≡ length ts)
  unfolding drop_front
  drop_front_size s [] e = (refl, λ h. absurd (omega arith))
  drop_front_size s (t ∷ ts) e = (refl, λ h. omega arith)

  overflow-IsBounded :
      (s : Executor T) (t : T) (p : QueuePolicy)
      → IsBounded s
      → is_full s ≡ true
      → IsBounded (overflow s t p)
  unfolding overflow
  overflow-IsBounded s t drop_newest b full = b
  overflow-IsBounded s t drop_oldest b full =
      let d = drop_front_size s s.queue refl in
      enqueue-IsBounded (drop_front s s.queue) t
        (λ p. omega (arith, d.0, d.1 (ground (arith, full)), b (omega (arith, d.0))))
  overflow-IsBounded s t block b full = b

  take_front-IsBounded :
      (s : Executor T) (ts : List T) → s.queue ≡ ts → IsBounded s → IsBounded (take_front s ts)
  unfolding take_front
  take_front-IsBounded s [] e b = b
  take_front-IsBounded s (t ∷ ts) e b = λ p. omega (arith, b p, ap length e)

  worker_go-IsBounded : (s : Executor T) (w : Worker T) → IsBounded s → IsBounded (worker_go s w)
  unfolding worker_go
  worker_go-IsBounded s idle b =
      if_elim IsBounded (s.stop && is_empty s.queue) (record s { worker = exited })
        (take_front s s.queue) (λ h. b) (λ h. take_front-IsBounded s s.queue refl b)
  worker_go-IsBounded s (running t) b = b
  worker_go-IsBounded s exited b = b

  wake-IsBounded : (s : Executor T) (ts : List T) → IsBounded s → IsBounded (wake s (can_go s) ts)
  unfolding wake can_go
  wake-IsBounded s [] b = b
  wake-IsBounded s (t ∷ ts) b =
      if_elim IsBounded _
        (if s.stop then record s { waiting = ts } else enqueue (record s { waiting = ts }) t)
        (record s { waiting = ts ++ t ∷ [] })
        (λ go.
          if_elim IsBounded s.stop (record s { waiting = ts })
            (enqueue (record s { waiting = ts }) t) (λ h. b)
            (λ h. enqueue-IsBounded (record s { waiting = ts }) t (λ p. ground (arith, go, h, p))))
        (λ no_go. b)

  step-IsBounded :
      (s : Executor T) (c : Call T)
      → ((n : ℕ) → c ≢ sets_max n)
      → IsBounded s
      → IsBounded (step s c)
  unfolding step add_task wake_producer shutdown set_queue_policy reset_dropped_tasks
  step-IsBounded s (adds none) k b = b
  step-IsBounded s (adds (some t)) k b =
      if_elim IsBounded s.stop s (if is_full s then overflow s t s.overflow_policy else enqueue s t)
        (λ h. b)
        λ h.
          if_elim IsBounded (is_full s) (overflow s t s.overflow_policy) (enqueue s t)
            (λ full. overflow-IsBounded s t s.overflow_policy b full)
            (λ room. enqueue-IsBounded s t (λ p. ground (arith, room, p)))
  step-IsBounded s wakes k b = wake-IsBounded s s.waiting b
  step-IsBounded s works k b = worker_go-IsBounded s s.worker b
  step-IsBounded s shuts_down k b =
      if_elim IsBounded s.shutdown_done s (record s { shutdown_done = true; stop = true }) (λ h. b)
        (λ h. b)
  step-IsBounded s (sets_max n) k b = absurd (k n refl)
  step-IsBounded s (sets_policy p) k b =
      if_elim IsBounded s.stop s (record s { overflow_policy = p }) (λ h. b) (λ h. b)
  step-IsBounded s resets k b = b

  -- No call of the list resizes the queue.
  abbrev pub NoResize : List (Call T) → Type 0
  NoResize [] = Unit {0}
  NoResize (c ∷ cs) = ((n : ℕ) → c ≢ sets_max n) × NoResize cs

  run-IsBounded :
      (s : Executor T) (cs : List (Call T)) → NoResize cs → IsBounded s → IsBounded (run s cs)
  unfolding run
  run-IsBounded s [] k b = b
  run-IsBounded s (c ∷ cs) k b = run-IsBounded (step s c) cs k.1 (step-IsBounded s c k.0 b)

  max-step :
      (s : Executor T) (c : Call T)
      → ((n : ℕ) → c ≢ sets_max n)
      → (step s c).max_queue_size ≡ s.max_queue_size
  unfolding step add_task wake_producer shutdown set_queue_policy reset_dropped_tasks overflow
      enqueue worker_go take_front wake
  max-step s (adds none) k = refl
  max-step s (adds (some t)) k =
      if_elim (λ (u : Executor T). u.max_queue_size ≡ s.max_queue_size) s.stop s
        (if is_full s then overflow s t s.overflow_policy else enqueue s t) (λ h. refl)
        λ h.
          if_elim (λ (u : Executor T). u.max_queue_size ≡ s.max_queue_size) (is_full s)
            (overflow s t s.overflow_policy) (enqueue s t) (λ full. go s.overflow_policy)
            (λ room. refl)
    where
      go : (p : QueuePolicy) → (overflow s t p).max_queue_size ≡ s.max_queue_size
      go drop_newest = refl
      go drop_oldest = (drop_front_size s s.queue refl).0
      go block = refl
  max-step s wakes k = go s.waiting
    where
      go : (ts : List T) → (wake s (can_go s) ts).max_queue_size ≡ s.max_queue_size
      go [] = refl
      go (t ∷ ts) = ground arith
  max-step s works k = go s.worker s.queue
    where
      take : (q : List T) → (take_front s q).max_queue_size ≡ s.max_queue_size
      take [] = refl
      take (t ∷ ts) = refl

      go : (w : Worker T) (q : List T) → (worker_go s w).max_queue_size ≡ s.max_queue_size
      go idle q =
          if_elim (λ (u : Executor T). u.max_queue_size ≡ s.max_queue_size)
            (s.stop && is_empty s.queue) (record s { worker = exited }) (take_front s s.queue)
            (λ h. refl) (λ h. take s.queue)
      go (running t) q = refl
      go exited q = refl
  max-step s shuts_down k = ground arith
  max-step s (sets_max n) k = absurd (k n refl)
  max-step s (sets_policy p) k = ground arith
  max-step s resets k = refl

  max-run :
      (s : Executor T) (cs : List (Call T))
      → NoResize cs
      → (run s cs).max_queue_size ≡ s.max_queue_size
  unfolding run
  max-run s [] k = refl
  max-run s (c ∷ cs) k = max-run (step s c) cs k.1 ∙ max-step s c k.0

max-set : (T : Type 0) (n : ℕ) → (set_max_queue_size (init T) n).max_queue_size ≡ n
unfolding set_max_queue_size
max-set T n = refl

init-IsBounded : (T : Type 0) (n : ℕ) → IsBounded (set_max_queue_size (init T) n)
unfolding set_max_queue_size
init-IsBounded T n p = omega arith

module _ {T : Type 0} where
  -- Once a limit is set, no call but another resize makes the queue longer than it, under any
  -- policy and however many producers wait.
  pub queue_within_limit :
      (n : ℕ) (cs : List (Call T))
      → 0 < n
      → NoResize cs
      → length (run (set_max_queue_size (init T) n) cs).queue ≤ n
  queue_within_limit n cs h k =
      let same = max-run (set_max_queue_size (init T) n) cs k ∙ max-set T n in
      omega (
        arith,
        same,
        run-IsBounded (set_max_queue_size (init T) n) cs k (init-IsBounded T n)
            (omega (arith, same)),
      )
