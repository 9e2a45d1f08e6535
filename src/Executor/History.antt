-- ===== src/Executor/History.antt =====
-- What holds of the queue and its history in both executors.
use log_it_cpp.Base.{
  ℕ, ◌≡◌, refl, sym, ap, ◌∙◌, inl, inr, append_assoc, append-nil, Bool, true, false, ◌&&◌, List, [],
  ◌∷◌, ◌++◌, map, arith, length, if_elim, Bool-cases,
}
use log_it_cpp.Executor.{
  QueuePolicy, drop_newest, drop_oldest, block, Removal, started, dropped, Worker, idle, running,
  exited, Executor, init, is_empty, enqueue, drop_front, overflow, take_front, worker_go, wake,
}

module _ {T : Type 0} where
  -- The tasks that left the queue to be run.
  abbrev pub started_of : List (T × Removal) → List T
  started_of [] = []
  started_of ((t, started) ∷ r) = t ∷ started_of r
  started_of ((t, dropped) ∷ r) = started_of r

  abbrev pub removed_tasks : List (T × Removal) → List T
  removed_tasks = map (λ x. x.0)

  abbrev pub current : Worker T → List T
  current idle = []
  current (running t) = t ∷ []
  current exited = []

  -- Tasks leave the queue in the order they entered; those that were started have completed, in
  -- order, but for the one that the worker runs; the active count is that task.
  pub record IsFaithful (s : Executor T) : Type 0 where
    pub in_order : s.accepted ≡ removed_tasks s.removed ++ s.queue
    pub each_once : started_of s.removed ≡ s.completed ++ current s.worker
    pub active : s.active_tasks ≡ length (current s.worker)
    pub exited_drained : s.worker ≡ exited → (s.stop ≡ true) × (s.queue ≡ [])

  started_of-append :
      (r r' : List (T × Removal)) → started_of (r ++ r') ≡ started_of r ++ started_of r'
  started_of-append [] r' = refl
  started_of-append ((t, started) ∷ r) r' = ap (◌∷◌ t) (started_of-append r r')
  started_of-append ((t, dropped) ∷ r) r' = started_of-append r r'

  removed-append :
      (r : List (T × Removal)) (x : T × Removal) (ts : List T)
      → removed_tasks (r ++ x ∷ []) ++ ts ≡ removed_tasks r ++ (x.0 ∷ ts)
  removed-append [] x ts = refl
  removed-append (y ∷ r) x ts = ap (◌∷◌ y.0) (removed-append r x ts)

  running_on : (s : Executor T) → s.stop ≡ false → s.stop ≡ true → ⊥
  running_on s a b = cc

  pub enqueue-IsFaithful :
      (s : Executor T) (t : T) → s.stop ≡ false → IsFaithful s → IsFaithful (enqueue s t)
  unfolding enqueue
  enqueue-IsFaithful s t go v = record {
    in_order =
        ap (λ xs. xs ++ t ∷ []) v.in_order
        ∙ append_assoc (removed_tasks s.removed) s.queue (t ∷ []);
    each_once = v.each_once;
    active = v.active;
    exited_drained = λ e. absurd (running_on s go (v.exited_drained e).0);
  }

  drop_front-IsFaithful :
      (s : Executor T) (ts : List T) → s.queue ≡ ts → IsFaithful s → IsFaithful (drop_front s ts)
  unfolding drop_front
  drop_front-IsFaithful s [] e v = v
  drop_front-IsFaithful s (t ∷ ts) e v = record {
    in_order =
        v.in_order
        ∙ ap (◌++◌ (removed_tasks s.removed)) e
        ∙ sym (removed-append s.removed (t, dropped) ts);
    each_once =
        started_of-append s.removed ((t, dropped) ∷ [])
        ∙ append-nil (started_of s.removed)
        ∙ v.each_once;
    active = v.active;
    exited_drained = λ x. cc (sym e ∙ (v.exited_drained x).1);
  }

  stop-drop_front : (s : Executor T) (ts : List T) → (drop_front s ts).stop ≡ s.stop
  unfolding drop_front
  stop-drop_front s [] = refl
  stop-drop_front s (t ∷ ts) = refl

  pub overflow-IsFaithful :
      (s : Executor T) (t : T) (p : QueuePolicy)
      → s.stop ≡ false
      → IsFaithful s
      → IsFaithful (overflow s t p)
  unfolding overflow
  overflow-IsFaithful s t drop_newest go v = record {
    in_order = v.in_order;
    each_once = v.each_once;
    active = v.active;
    exited_drained = v.exited_drained;
  }
  overflow-IsFaithful s t drop_oldest go v =
      enqueue-IsFaithful (drop_front s s.queue) t (stop-drop_front s s.queue ∙ go)
        (drop_front-IsFaithful s s.queue refl v)
  overflow-IsFaithful s t block go v = record {
    in_order = v.in_order;
    each_once = v.each_once;
    active = v.active;
    exited_drained = v.exited_drained;
  }

  take_front-IsFaithful :
      (s : Executor T) (ts : List T)
      → s.queue ≡ ts
      → s.worker ≡ idle
      → IsFaithful s
      → IsFaithful (take_front s ts)
  unfolding take_front
  take_front-IsFaithful s [] e w v = v
  take_front-IsFaithful s (t ∷ ts) e w v = record {
    in_order =
        v.in_order
        ∙ ap (◌++◌ (removed_tasks s.removed)) e
        ∙ sym (removed-append s.removed (t, started) ts);
    each_once =
        started_of-append s.removed ((t, started) ∷ [])
        ∙ ap (λ xs. xs ++ t ∷ [])
            (v.each_once ∙ ap (λ x. s.completed ++ current x) w ∙ append-nil s.completed);
    active = omega (arith, v.active, ap (λ x. length (current x)) w);
    exited_drained = λ x. cc;
  }

  is_empty→nil : (ts : List T) → is_empty ts ≡ true → ts ≡ []
  is_empty→nil [] h = refl
  is_empty→nil (t ∷ ts) h = cc

  pub worker_go-IsFaithful :
      (s : Executor T) (w : Worker T) → s.worker ≡ w → IsFaithful s → IsFaithful (worker_go s w)
  unfolding worker_go
  worker_go-IsFaithful s idle e v = elim (Bool-cases (s.stop && is_empty s.queue)) [
    | inl h ↦ rw h (record {
      in_order = v.in_order;
      each_once = v.each_once ∙ ap (λ x. s.completed ++ current x) e;
      active = v.active ∙ ap (λ x. length (current x)) e;
      exited_drained = λ x. (ground (arith, h), is_empty→nil s.queue (ground (arith, h)));
    })
    | inr h ↦ rw h (take_front-IsFaithful s s.queue refl e v)
  ]
  worker_go-IsFaithful s (running t) e v = record {
    in_order = v.in_order;
    each_once =
        v.each_once
        ∙ ap (λ x. s.completed ++ current x) e
        ∙ sym (append-nil (s.completed ++ t ∷ []));
    active = omega (arith, v.active, ap (λ x. length (current x)) e);
    exited_drained = λ x. cc;
  }
  worker_go-IsFaithful s exited e v = v

  pub wake-IsFaithful :
      (s : Executor T) (can_go : Bool) (ts : List T) → IsFaithful s → IsFaithful (wake s can_go ts)
  unfolding wake
  wake-IsFaithful s can_go [] v = v
  wake-IsFaithful s false (t ∷ ts) v = record {
    in_order = v.in_order;
    each_once = v.each_once;
    active = v.active;
    exited_drained = v.exited_drained;
  }
  wake-IsFaithful s true (t ∷ ts) v =
      if_elim IsFaithful s.stop (record s { waiting = ts }) (enqueue (record s { waiting = ts }) t)
        (λ h. unwait v) (λ h. enqueue-IsFaithful (record s { waiting = ts }) t h (unwait v))
    where
      unwait : IsFaithful s → IsFaithful (record s { waiting = ts })
      unwait v = record {
        in_order = v.in_order;
        each_once = v.each_once;
        active = v.active;
        exited_drained = v.exited_drained;
      }

  -- The history does not depend on the limits, the counter or who waits.
  pub same_history :
      (s : Executor T) (stop shut : Bool) (n d : ℕ) (p : QueuePolicy)
      → (s.stop ≡ true → stop ≡ true)
      → IsFaithful s
      → IsFaithful (record s {
        stop = stop;
        shutdown_done = shut;
        max_queue_size = n;
        dropped_tasks = d;
        overflow_policy = p;
      })
  same_history s stop shut n d p keeps v = record {
    in_order = v.in_order;
    each_once = v.each_once;
    active = v.active;
    exited_drained = λ e. (keeps (v.exited_drained e).0, (v.exited_drained e).1);
  }

pub init-IsFaithful : {T : Type 0} → IsFaithful (init T)
init-IsFaithful {T} = record {
  in_order = refl;
  each_once = refl;
  active = refl;
  exited_drained = λ e. absurd (not_idle e);
}
  where
    not_idle : ◌≡◌ {A = Worker T} idle exited → ⊥
    not_idle e = cc
