-- ===== src/Executor/Task/Laws.antt =====
-- TaskExecutor.hpp: order and completion, and a producer that is left behind by a resize.
use log_it_cpp.Base.{
  ◌≡◌, refl, sym, ap, ap₂, ◌∙◌, subst, Bool, true, false, ◌&&◌, none, some, List, [], ◌∷◌, ◌++◌,
  append_assoc, append-nil, arith, if◌then◌else◌, if_elim,
}
use log_it_cpp.Executor.{
  Worker, idle, running, exited, Executor, init, is_empty, enqueue, is_full, overflow, take_front,
  worker_go, wake,
}
use log_it_cpp.Executor.History.{
  IsFaithful, init-IsFaithful, same_history, enqueue-IsFaithful, overflow-IsFaithful,
  worker_go-IsFaithful, wake-IsFaithful,
}
use log_it_cpp.Executor.Task.{
  add_task, can_go, wake_producer, shutdown, set_max_queue_size, set_queue_policy,
  reset_dropped_tasks, Call, adds, wakes, works, shuts_down, sets_max, sets_policy, resets, step,
  run,
}

module _ {T : Type 0} where
  -- The same list, begun at another place: as many of each element, and no other.
  abbrev pub IsRotation : List T → List T → Type 0
  IsRotation xs ys = (a : List T) × (b : List T) × (xs ≡ a ++ b) × (ys ≡ b ++ a)

  IsRotation-self : (xs : List T) → IsRotation xs xs
  IsRotation-self xs = (xs, [], sym (append-nil xs), refl)

  tail_of : List T → List T
  tail_of [] = []
  tail_of (x ∷ xs) = xs

  -- The first element goes to the end.
  IsRotation-next :
      (xs : List T) (t : T) (ts : List T) → IsRotation xs (t ∷ ts) → IsRotation xs (ts ++ t ∷ [])
  unfolding tail_of
  IsRotation-next xs t ts (a, [], p, q) = (t ∷ [], ts, p ∙ append-nil a ∙ sym q, refl)
  IsRotation-next xs t ts (a, c ∷ b, p, q) =
      let same : t ∷ [] ≡ c ∷ [] = cc in
      (
        a ++ c ∷ [],
        b,
        p ∙ sym (append_assoc a (c ∷ []) b),
        ap₂ ◌++◌ (ap tail_of q) same ∙ append_assoc b a (c ∷ []),
      )

  step-IsFaithful : (s : Executor T) (c : Call T) → IsFaithful s → IsFaithful (step s c)
  unfolding step add_task wake_producer shutdown set_max_queue_size set_queue_policy
      reset_dropped_tasks
  step-IsFaithful s (adds none) v = v
  step-IsFaithful s (adds (some t)) v =
      if_elim IsFaithful s.stop s
        (if is_full s then overflow s t s.overflow_policy else enqueue s t) (λ h. v)
        λ h.
          if_elim IsFaithful (is_full s) (overflow s t s.overflow_policy) (enqueue s t)
            (λ full. overflow-IsFaithful s t s.overflow_policy h v)
            (λ room. enqueue-IsFaithful s t h v)
  step-IsFaithful s wakes v = wake-IsFaithful s (can_go s) s.waiting v
  step-IsFaithful s works v = worker_go-IsFaithful s s.worker refl v
  step-IsFaithful s shuts_down v =
      same_history s true s.shutdown_done s.max_queue_size s.dropped_tasks s.overflow_policy
        (λ x. refl) v
  step-IsFaithful s (sets_max n) v =
      if_elim IsFaithful s.stop s (record s { max_queue_size = n }) (λ h. v)
        (λ h. same_history s s.stop s.shutdown_done n s.dropped_tasks s.overflow_policy (λ x. x) v)
  step-IsFaithful s (sets_policy p) v =
      if_elim IsFaithful s.stop s (record s { overflow_policy = p }) (λ h. v)
        (λ h. same_history s s.stop s.shutdown_done s.max_queue_size s.dropped_tasks p (λ x. x) v)
  step-IsFaithful s resets v =
      same_history s s.stop s.shutdown_done s.max_queue_size 0 s.overflow_policy (λ x. x) v

  run-IsFaithful : (s : Executor T) (cs : List (Call T)) → IsFaithful s → IsFaithful (run s cs)
  unfolding run
  run-IsFaithful s [] v = v
  run-IsFaithful s (c ∷ cs) v = run-IsFaithful (step s c) cs (step-IsFaithful s c v)

  -- In every run of a new executor the tasks leave the queue in the order they entered it, and the
  -- started ones run to the end one after another.
  pub task_run-IsFaithful : (cs : List (Call T)) → IsFaithful (run (init T) cs)
  task_run-IsFaithful cs = run-IsFaithful (init T) cs init-IsFaithful

  -- The calls that neither resize the queue nor shut the executor down.
  abbrev pub IsOrdinary : Call T → Type 0
  IsOrdinary shuts_down = ⊥
  IsOrdinary (sets_max n) = ⊥
  IsOrdinary _ = Unit

  abbrev pub AllOrdinary : List (Call T) → Type 0
  AllOrdinary [] = Unit {0}
  AllOrdinary (c ∷ cs) = IsOrdinary c × AllOrdinary cs

  -- The limit was lifted while producers wait, and the same producers wait still.
  record IsStranded (s : Executor T) (n : List T) : Type 0 where
    unlimited : s.max_queue_size ≡ 0
    open_still : s.stop ≡ false
    waiters : IsRotation n s.waiting

  cannot_go : (s : Executor T) (n : List T) → IsStranded s n → can_go s ≡ false
  unfolding can_go
  cannot_go s n h = ground (arith, h.unlimited, h.open_still)

  not_full : (s : Executor T) (n : List T) → IsStranded s n → is_full s ≡ false
  not_full s n h = ground (arith, h.unlimited)

  worker_go-IsStranded :
      (s : Executor T) (w : Worker T) (n : List T) → IsStranded s n → IsStranded (worker_go s w) n
  unfolding worker_go
  worker_go-IsStranded s idle n h =
      if_elim (λ u. IsStranded u n) (s.stop && is_empty s.queue) (record s { worker = exited })
        (take_front s s.queue)
        (λ x. record { unlimited = h.unlimited; open_still = h.open_still; waiters = h.waiters })
        (λ x. go s.queue)
    where
      go : (q : List T) → IsStranded (take_front s q) n
      go [] = unfold take_front in h
      go (t ∷ q) =
          unfold take_front in
          record { unlimited = h.unlimited; open_still = h.open_still; waiters = h.waiters }
  worker_go-IsStranded s (running t) n h = record {
    unlimited = h.unlimited;
    open_still = h.open_still;
    waiters = h.waiters;
  }
  worker_go-IsStranded s exited n h = h

  wake-IsStranded :
      (s : Executor T) (ts : List T) (n : List T)
      → s.waiting ≡ ts
      → IsStranded s n
      → IsStranded (wake s false ts) n
  unfolding wake
  wake-IsStranded s [] n e h = h
  wake-IsStranded s (t ∷ ts) n e h = record {
    unlimited = h.unlimited;
    open_still = h.open_still;
    waiters = IsRotation-next n t ts (subst (IsRotation n) e h.waiters);
  }

  step-IsStranded :
      (s : Executor T) (c : Call T) (n : List T)
      → IsOrdinary c
      → IsStranded s n
      → IsStranded (step s c) n
  unfolding step add_task wake_producer set_queue_policy reset_dropped_tasks enqueue
  step-IsStranded s (adds none) n o h = h
  step-IsStranded s (adds (some t)) n o h =
      if_elim (λ u. IsStranded u n) s.stop s
        (if is_full s then overflow s t s.overflow_policy else enqueue s t) (λ x. h)
        λ x.
          if_elim (λ u. IsStranded u n) (is_full s) (overflow s t s.overflow_policy) (enqueue s t)
            (λ full. absurd (clash (is_full s) full (not_full s n h)))
            (λ room. record {
              unlimited = h.unlimited;
              open_still = h.open_still;
              waiters = h.waiters;
            })
    where
      clash : (b : Bool) → b ≡ true → b ≡ false → ⊥
      clash b x y = cc
  step-IsStranded s wakes n o h =
      subst (λ b. IsStranded (wake s b s.waiting) n) (sym (cannot_go s n h))
        (wake-IsStranded s s.waiting n refl h)
  step-IsStranded s works n o h = worker_go-IsStranded s s.worker n h
  step-IsStranded s shuts_down n o h = absurd o
  step-IsStranded s (sets_max m) n o h = absurd o
  step-IsStranded s (sets_policy p) n o h =
      if_elim (λ u. IsStranded u n) s.stop s (record s { overflow_policy = p }) (λ x. h)
        (λ x. record { unlimited = h.unlimited; open_still = h.open_still; waiters = h.waiters })
  step-IsStranded s resets n o h = record {
    unlimited = h.unlimited;
    open_still = h.open_still;
    waiters = h.waiters;
  }

  run-IsStranded :
      (s : Executor T) (cs : List (Call T)) (n : List T)
      → AllOrdinary cs
      → IsStranded s n
      → IsStranded (run s cs) n
  unfolding run
  run-IsStranded s [] n o h = h
  run-IsStranded s (c ∷ cs) n o h = run-IsStranded (step s c) cs n o.1 (step-IsStranded s c n o.0 h)

  -- `set_max_queue_size(0)` lifts the limit for new tasks, but a producer that was already waiting
  -- for room never gets its task into the queue: on an executor that is not stopped, until another
  -- resize or the shutdown, the producers that waited before all wait still and no other does,
  -- whatever the worker and the other threads do.
  pub lifted_limit_strands_waiters :
      (s : Executor T) (cs : List (Call T))
      → s.stop ≡ false
      → AllOrdinary cs
      → IsRotation s.waiting (run (set_max_queue_size s 0) cs).waiting
  unfolding set_max_queue_size
  lifted_limit_strands_waiters s cs open_now o =
      (run-IsStranded (set_max_queue_size s 0) cs s.waiting o (
        rw open_now (record {
          unlimited = refl;
          open_still = refl;
          waiters = IsRotation-self s.waiting;
        }))).waiters
