-- ===== src/Executor/Single/Shutdown.antt =====
-- SingleThreadExecutor.hpp: shutdown.
use log_it_cpp.Base.{
  ℕ, suc, ◌+◌, ◌≡◌, refl, sym, ap, ◌∙◌, Bool, true, false, ◌&&◌, none, some, List, [], ◌∷◌, ◌++◌,
  append-nil, append_assoc, subst, arith, length, if◌then◌else◌, if_elim, if_true, replicate, ◌*◌,
}
use log_it_cpp.Executor.{
  QueuePolicy, drop_newest, drop_oldest, block, Worker, idle, running, exited, Executor, init,
  is_empty, enqueue, drop_front, is_full, overflow, take_front, worker_go, wake,
}
use log_it_cpp.Executor.Single.{
  add_task, can_go, wake_producer, shutdown, set_max_queue_size, set_queue_policy,
  reset_dropped_tasks, Call, adds, wakes, works, shuts_down, sets_max, sets_policy, resets, step,
  run,
}

module _ {T : Type 0} where
  -- A stopped executor takes in nothing more.
  record IsClosed (s : Executor T) (accepted : List T) : Type 0 where
    stopped : s.stop ≡ true
    shut : s.shutdown_done ≡ true
    same : s.accepted ≡ accepted

  worker_go-IsClosed :
      (s : Executor T) (w : Worker T) (a : List T) → IsClosed s a → IsClosed (worker_go s w) a
  unfolding worker_go take_front
  worker_go-IsClosed s idle a c =
      if_elim (λ u. IsClosed u a) (s.stop && is_empty s.queue) (record s { worker = exited })
        (take_front s s.queue) (λ h. record { stopped = c.stopped; shut = c.shut; same = c.same })
        (λ h. go s.queue)
    where
      go : (q : List T) → IsClosed (take_front s q) a
      go [] = c
      go (t ∷ ts) = record { stopped = c.stopped; shut = c.shut; same = c.same }
  worker_go-IsClosed s (running t) a c = record {
    stopped = c.stopped;
    shut = c.shut;
    same = c.same;
  }
  worker_go-IsClosed s exited a c = c

  wake-IsClosed :
      (s : Executor T) (ts : List T) (b : Bool) (a : List T)
      → IsClosed s a
      → IsClosed (wake s b ts) a
  unfolding wake
  wake-IsClosed s [] b a c = c
  wake-IsClosed s (t ∷ ts) b a c =
      if_elim (λ u. IsClosed u a) b _ (record s { waiting = ts ++ t ∷ [] })
        (λ go.
          if_elim (λ u. IsClosed u a) s.stop (record s { waiting = ts })
            (enqueue (record s { waiting = ts }) t)
            (λ h. record { stopped = c.stopped; shut = c.shut; same = c.same })
            (λ h. absurd (open_closed s h c.stopped)))
        (λ no_go. record { stopped = c.stopped; shut = c.shut; same = c.same })
    where
      open_closed : (s : Executor T) → s.stop ≡ false → s.stop ≡ true → ⊥
      open_closed s x y = cc

  step-IsClosed :
      (s : Executor T) (call : Call T) (a : List T) → IsClosed s a → IsClosed (step s call) a
  unfolding step add_task wake_producer shutdown set_max_queue_size set_queue_policy
      reset_dropped_tasks
  step-IsClosed s (adds none) a c = c
  step-IsClosed s (adds (some t)) a c =
      if_true (λ u. IsClosed u a) s.stop s
        (if is_full s then overflow s t s.overflow_policy else enqueue s t) c.stopped c
  step-IsClosed s wakes a c = wake-IsClosed s s.waiting (can_go s) a c
  step-IsClosed s works a c = worker_go-IsClosed s s.worker a c
  step-IsClosed s shuts_down a c =
      if_true (λ u. IsClosed u a) s.shutdown_done s (record s { shutdown_done = true; stop = true })
        c.shut c
  step-IsClosed s (sets_max n) a c =
      if_true (λ u. IsClosed u a) s.stop s (record s { max_queue_size = n }) c.stopped c
  step-IsClosed s (sets_policy p) a c =
      if_true (λ u. IsClosed u a) s.stop s (record s { overflow_policy = p }) c.stopped c
  step-IsClosed s resets a c = record { stopped = c.stopped; shut = c.shut; same = c.same }

  run-IsClosed :
      (s : Executor T) (cs : List (Call T)) (a : List T) → IsClosed s a → IsClosed (run s cs) a
  unfolding run
  run-IsClosed s [] a c = c
  run-IsClosed s (call ∷ cs) a c = run-IsClosed (step s call) cs a (step-IsClosed s call a c)

  -- The two flags are set together.
  abbrev SameFlags : Executor T → Type 0
  SameFlags s = s.shutdown_done ≡ s.stop

  flags-enqueue : (s : Executor T) (t : T) → SameFlags s → SameFlags (enqueue s t)
  unfolding enqueue
  flags-enqueue s t h = h

  flags-overflow :
      (s : Executor T) (t : T) (p : QueuePolicy) → SameFlags s → SameFlags (overflow s t p)
  unfolding overflow drop_front
  flags-overflow s t drop_newest h = h
  flags-overflow s t drop_oldest h = flags-enqueue (drop_front s s.queue) t (go s.queue)
    where
      go : (q : List T) → SameFlags (drop_front s q)
      go [] = h
      go (x ∷ q) = h
  flags-overflow s t block h = h

  flags-worker_go : (s : Executor T) (w : Worker T) → SameFlags s → SameFlags (worker_go s w)
  unfolding worker_go take_front
  flags-worker_go s idle h =
      if_elim SameFlags (s.stop && is_empty s.queue) (record s { worker = exited })
        (take_front s s.queue) (λ x. h) (λ x. go s.queue)
    where
      go : (q : List T) → SameFlags (take_front s q)
      go [] = h
      go (x ∷ q) = h
  flags-worker_go s (running t) h = h
  flags-worker_go s exited h = h

  flags-wake : (s : Executor T) (b : Bool) (ts : List T) → SameFlags s → SameFlags (wake s b ts)
  unfolding wake
  flags-wake s b [] h = h
  flags-wake s b (t ∷ ts) h =
      if_elim SameFlags b
        (if s.stop then record s { waiting = ts } else enqueue (record s { waiting = ts }) t)
        (record s { waiting = ts ++ t ∷ [] })
        (λ go.
          if_elim SameFlags s.stop (record s { waiting = ts })
            (enqueue (record s { waiting = ts }) t) (λ x. h)
            (λ x. flags-enqueue (record s { waiting = ts }) t h))
        (λ no_go. h)

  flags-step : (s : Executor T) (c : Call T) → SameFlags s → SameFlags (step s c)
  unfolding step add_task wake_producer shutdown set_max_queue_size set_queue_policy
      reset_dropped_tasks
  flags-step s (adds none) h = h
  flags-step s (adds (some t)) h =
      if_elim SameFlags s.stop s (if is_full s then overflow s t s.overflow_policy else enqueue s t)
        (λ x. h)
        λ x.
          if_elim SameFlags (is_full s) (overflow s t s.overflow_policy) (enqueue s t)
            (λ y. flags-overflow s t s.overflow_policy h) (λ y. flags-enqueue s t h)
  flags-step s wakes h = flags-wake s (can_go s) s.waiting h
  flags-step s works h = flags-worker_go s s.worker h
  flags-step s shuts_down h =
      if_elim SameFlags s.shutdown_done s (record s { shutdown_done = true; stop = true }) (λ x. h)
        (λ x. refl)
  flags-step s (sets_max n) h =
      if_elim SameFlags s.stop s (record s { max_queue_size = n }) (λ x. h) (λ x. h)
  flags-step s (sets_policy p) h =
      if_elim SameFlags s.stop s (record s { overflow_policy = p }) (λ x. h) (λ x. h)
  flags-step s resets h = h

  flags-run : (s : Executor T) (cs : List (Call T)) → SameFlags s → SameFlags (run s cs)
  unfolding run
  flags-run s [] h = h
  flags-run s (c ∷ cs) h = flags-run (step s c) cs (flags-step s c h)

  run-append : (s : Executor T) (cs ds : List (Call T)) → run s (cs ++ ds) ≡ run (run s cs) ds
  unfolding run
  run-append s [] ds = refl
  run-append s (c ∷ cs) ds = run-append (step s c) cs ds

  closes : (s : Executor T) → SameFlags s → IsClosed (step s shuts_down) s.accepted
  unfolding step shutdown
  closes s h =
      if_elim (λ u. IsClosed u s.accepted) s.shutdown_done s
        (record s { shutdown_done = true; stop = true })
        (λ x. record { stopped = sym h ∙ x; shut = x; same = refl })
        (λ x. record { stopped = refl; shut = refl; same = refl })

  -- After `shutdown` no call brings another task into the queue: neither a new `add_task` nor a
  -- producer that was waiting for room.
  pub shutdown_accepts_nothing :
      (before later : List (Call T))
      → (run (init T) (before ++ shuts_down ∷ later)).accepted ≡ (run (init T) before).accepted
  shutdown_accepts_nothing before later =
      ap (λ (u : Executor T). u.accepted) (run-append (init T) before (shuts_down ∷ later))
      ∙ unfold run in
        (run-IsClosed _ later _
          (closes (run (init T) before) (flags-run (init T) before refl))).same

  -- `works` once to take each task, once to finish it, and once to exit.
  rounds : List T → ℕ
  rounds [] = 1
  rounds (t ∷ q) = suc (suc (rounds q))

  rounds_lem : (q : List T) → rounds q ≡ 2 * length q + 1
  unfolding rounds
  rounds_lem [] = omega arith
  rounds_lem (t ∷ q) = omega (arith, rounds_lem q)

  abbrev pub Drained : Executor T → List T → Type 0
  Drained u done = (u.worker ≡ exited) × (u.queue ≡ []) × (u.completed ≡ done)

  one_work :
      (s : Executor T) (w : Worker T) (cs : List (Call T))
      → s.worker ≡ w
      → run s (works ∷ cs) ≡ run (worker_go s w) cs
  unfolding run step
  one_work s w cs e = ap (λ x. run (worker_go s x) cs) e

  exits :
      (s : Executor T)
      → s.queue ≡ []
      → s.stop ≡ true
      → worker_go s idle ≡ record s { worker = exited }
  unfolding worker_go
  exits s e st = rw (
      let h : (s.stop && is_empty s.queue) ≡ true =
        ap (λ b. b && is_empty s.queue) st ∙ ap is_empty e in
      h)

  takes :
      (s : Executor T) (t : T) (q : List T)
      → s.queue ≡ t ∷ q
      → worker_go s idle ≡ take_front s (t ∷ q)
  unfolding worker_go
  takes s t q e =
      rw
        (let h : (s.stop && is_empty s.queue) ≡ false =
            ap (λ x. s.stop && is_empty x) e ∙ and_false s.stop in
          h)
        (ap (take_front s) e)
    where
      and_false : (b : Bool) → (b && false) ≡ false
      and_false true = refl
      and_false false = refl

  drain_rounds :
      (q : List T) (s : Executor T)
      → s.queue ≡ q
      → s.stop ≡ true
      → s.worker ≡ idle
      → Drained (run s (replicate (rounds q) works)) (s.completed ++ q)
  unfolding rounds run worker_go take_front
  drain_rounds [] s e st w =
      subst (λ u. Drained u (s.completed ++ []))
        (sym (one_work s idle [] w ∙ ap (λ u. run u []) (exits s e st)))
        (refl, e, sym (append-nil s.completed))
  drain_rounds (t ∷ q) s e st w =
      subst (λ u. Drained u (s.completed ++ t ∷ q))
        (sym (
          one_work s idle (works ∷ replicate (rounds q) works) w
          ∙ ap (λ u. run u (works ∷ replicate (rounds q) works)) (takes s t q e)
          ∙ one_work (take_front s (t ∷ q)) (running t) (replicate (rounds q) works) refl))
        (subst
          (λ xs.
            Drained
              (run (worker_go (take_front s (t ∷ q)) (running t)) (replicate (rounds q) works)) xs)
          (append_assoc s.completed (t ∷ []) q)
          (drain_rounds q (worker_go (take_front s (t ∷ q)) (running t)) refl st refl))

  -- Once stopped, an idle worker runs the whole queue in order, one task after another, and exits.
  pub drains :
      (s : Executor T)
      → s.stop ≡ true
      → s.worker ≡ idle
      → Drained (run s (replicate (2 * length s.queue + 1) works)) (s.completed ++ s.queue)
  drains s st w =
      subst (λ n. Drained (run s (replicate n works)) (s.completed ++ s.queue)) (rounds_lem s.queue)
        (drain_rounds s.queue s refl st w)
