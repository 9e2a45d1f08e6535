-- ===== src/Executor/Cooperative/Progress.antt =====
-- SingleThreadExecutor.hpp, the build for Emscripten: no call hangs and no task is left behind.
use log_it_cpp.Base.{
  ◌≡◌, ◌<◌, refl, sym, ap, subst, ◌∙◌, true, false, Option, none, some, List, [], ◌∷◌, ◌++◌,
  append_assoc, append-nil, ltb, if_elim, length, arith,
}
use log_it_cpp.Executor.{QueuePolicy, drop_newest, drop_oldest, block}
use log_it_cpp.Executor.Cooperative.{
  State, new_state, drain_loop, drain_state, at_limit, accept, drop_oldest_task, at_limit_go,
  add_loop, add_task, shutdown, set_max_queue_size, set_queue_policy, drain_thunk, Call, adds,
  waits, fires, shuts_down, sets_max, sets_policy, resets, step, then_run, run,
}

module _ {T : Type 0} where
  -- A queue that is not empty has a drain scheduled, and a scheduled drain is due.
  abbrev pub IsLive : State T → Type 0
  IsLive s = (0 < length s.queue → s.scheduled ≡ true) × (s.scheduled ≡ true → 0 < s.drains_due)

  drain-loop :
      (q : List T) (s : State T)
      → drain_loop q s ≡ record s { queue = []; scheduled = false; completed = s.completed ++ q }
  unfolding drain_loop
  drain-loop [] s =
      ap (λ c. record s { queue = []; scheduled = false; completed = c })
        (sym (append-nil s.completed))
  drain-loop (t ∷ q) s =
      drain-loop q (record s { queue = q; completed = s.completed ++ t ∷ [] })
      ∙ ap (λ c. record s { queue = []; scheduled = false; completed = c })
          (append_assoc s.completed (t ∷ []) q)

  -- A drain runs every task of the queue, in order, and changes nothing else but the flag.
  pub drain_state_lem :
      (s : State T)
      → drain_state s
        ≡ record s { queue = []; scheduled = false; completed = s.completed ++ s.queue }
  unfolding drain_state
  drain_state_lem s = drain-loop s.queue s

  drained-IsLive : (s : State T) → IsLive (drain_state s)
  drained-IsLive s =
      subst IsLive (sym (drain_state_lem s)) ((λ h. absurd (omega (arith, h))), λ e. cc)

  accept-IsLive :
      (s : State T) (t : T) → (s.scheduled ≡ true → 0 < s.drains_due) → IsLive (accept s t)
  unfolding accept
  accept-IsLive s t l =
      if_elim IsLive s.scheduled _ _ (λ h. ((λ x. h), l)) (λ h. ((λ x. refl), λ x. omega arith))

  drop-due :
      (s : State T) (q : List T)
      → (s.scheduled ≡ true → 0 < s.drains_due)
      → (drop_oldest_task s q).scheduled ≡ true
      → 0 < (drop_oldest_task s q).drains_due
  unfolding drop_oldest_task
  drop-due s [] l = l
  drop-due s (x ∷ q) l = l

  -- The loop returned a state that is live.
  abbrev pub Returns : Option (State T) → Type 0
  Returns o = (u : State T) × (o ≡ some u) × IsLive u

  at_limit-Returns :
      (s : State T) (t : T) (again : Option (State T)) (p : QueuePolicy)
      → IsLive s
      → Returns again
      → Returns (at_limit_go s t again p)
  unfolding at_limit_go
  at_limit-Returns s t again drop_newest l r = (_, refl, l)
  at_limit-Returns s t again drop_oldest l r =
      (_, refl, accept-IsLive (drop_oldest_task s s.queue) t (drop-due s s.queue l.1))
  at_limit-Returns s t again block l r = r

  not_at_limit : (s : State T) → at_limit (drain_state s) ≡ false
  not_at_limit s = subst (λ u. at_limit u ≡ false) (sym (drain_state_lem s)) (ground arith)

  -- After a drain one more round is enough.
  second_round : (s : State T) (t : T) → Returns (add_loop 1 (drain_state s) t)
  unfolding add_loop
  second_round s t =
      if_elim Returns (drain_state s).shutdown_requested _ _ (λ h. (_, refl, drained-IsLive s))
        (λ h.
          if_elim Returns (at_limit (drain_state s)) _ _ (λ k. cc (sym (not_at_limit s) ∙ k))
            (λ k. (_, refl, accept-IsLive (drain_state s) t (drained-IsLive s).1)))

  add_loop-Returns : (s : State T) (t : T) → IsLive s → Returns (add_loop 2 s t)
  unfolding add_loop
  add_loop-Returns s t l =
      if_elim Returns s.shutdown_requested _ _ (λ h. (_, refl, l))
        (λ h.
          if_elim Returns (at_limit s) _ _
            (λ k.
              at_limit-Returns s t (add_loop 1 (drain_state s) t) s.overflow_policy l
                (second_round s t))
            (λ k. (_, refl, accept-IsLive s t l.1)))

  step-Returns : (s : State T) (c : Call T) → IsLive s → Returns (step s c)
  unfolding step add_task shutdown set_max_queue_size set_queue_policy drain_thunk
  step-Returns s (adds none) l = (_, refl, l)
  step-Returns s (adds (some t)) l = add_loop-Returns s t l
  step-Returns s waits l = (_, refl, drained-IsLive s)
  step-Returns s fires l =
      (_, refl, if_elim IsLive (ltb 0 s.drains_due) _ _ (λ h. drained-IsLive _) (λ h. l))
  step-Returns s shuts_down l =
      (_, refl, if_elim IsLive s.shutdown_requested _ _ (λ h. l) (λ h. drained-IsLive _))
  step-Returns s (sets_max n) l =
      (_, refl, if_elim IsLive s.shutdown_requested _ _ (λ h. l) (λ h. l))
  step-Returns s (sets_policy p) l =
      (_, refl, if_elim IsLive s.shutdown_requested _ _ (λ h. l) (λ h. l))
  step-Returns s resets l = (_, refl, l)

  run-Returns : (s : State T) (cs : List (Call T)) → IsLive s → Returns (run s cs)
  unfolding run
  run-Returns s [] l = (s, refl, l)
  run-Returns s (c ∷ cs) l =
      let r = step-Returns s c l in
      subst (λ o. Returns (then_run o (λ u. run u cs))) (sym r.1) (run-Returns r.0 cs r.2)

  -- Every sequence of calls on a new executor returns (a full queue never makes add_task loop more
  -- than twice), and then a queue that is not empty has a drain scheduled and due.
  pub run-new_state-Returns : (cs : List (Call T)) → Returns (run (new_state T) cs)
  run-new_state-Returns cs =
      run-Returns (new_state T) cs ((λ h. absurd (omega (arith, h))), λ e. cc)
