-- ===== src/Executor/Cooperative.antt =====
-- detail/SingleThreadExecutor.hpp, the build for Emscripten without threads: tasks run on the
-- calling thread, when a scheduled drain fires or a caller drains. Tasks of the model do not call
-- the executor themselves. `drains_due` counts the calls of emscripten_async_call that have not
-- fired; `completed` are the tasks that ran.
pub mod Progress
mod Tests
use log_it_cpp.Base.{
  ℕ, zero, suc, ◌+◌, ◌-◌, Bool, true, false, ◌&&◌, ◌||◌, not, Option, none, some, List, [], ◌∷◌,
  ◌++◌, ltb, leb, if◌then◌else◌, length,
}
use log_it_cpp.Executor.{QueuePolicy, drop_newest, drop_oldest, block}

pub record State (T : Type 0) : Type 0 where
  pub queue : List T
  pub max_queue_size : ℕ
  pub overflow_policy : QueuePolicy
  pub dropped_tasks : ℕ
  pub scheduled : Bool
  pub shutdown_requested : Bool
  pub drains_due : ℕ
  pub completed : List T

abbrev pub new_state : (T : Type 0) → State T
new_state T = record {
  queue = [];
  max_queue_size = 0;
  overflow_policy = block;
  dropped_tasks = 0;
  scheduled = false;
  shutdown_requested = false;
  drains_due = 0;
  completed = [];
}

module _ {T : Type 0} where
  -- The loop of drain_state: each task is taken and run, until the queue is empty.
  pub drain_loop : List T → State T → State T
  drain_loop [] s = record s { queue = []; scheduled = false }
  drain_loop (t ∷ q) s = drain_loop q (record s { queue = q; completed = s.completed ++ t ∷ [] })

  pub drain_state : State T → State T
  drain_state s = drain_loop s.queue s

  abbrev pub at_limit : State T → Bool
  at_limit s = ltb 0 s.max_queue_size && leb s.max_queue_size (length s.queue)

  -- `push_back`, and schedule_drain unless a drain is scheduled.
  pub accept : State T → T → State T
  accept s t =
      if s.scheduled
      then record s { queue = s.queue ++ t ∷ [] }
      else record s { queue = s.queue ++ t ∷ []; scheduled = true; drains_due = s.drains_due + 1 }

  pub drop_oldest_task : State T → List T → State T
  drop_oldest_task s [] = s
  drop_oldest_task s (x ∷ q) = record s { queue = q; dropped_tasks = s.dropped_tasks + 1 }

  -- The switch on the policy when the queue is full; `again` is the next round, after a drain.
  pub at_limit_go : State T → T → Option (State T) → QueuePolicy → Option (State T)
  at_limit_go s t again drop_newest = some (record s { dropped_tasks = s.dropped_tasks + 1 })
  at_limit_go s t again drop_oldest = some (accept (drop_oldest_task s s.queue) t)
  at_limit_go s t again block = again

  -- The loop of add_task, at most `fuel` rounds; `none` when they do not suffice.
  pub add_loop : ℕ → State T → T → Option (State T)
  add_loop zero s t = none
  add_loop (suc fuel) s t =
      let again = add_loop fuel (drain_state s) t in
      if s.shutdown_requested
      then some s
      else if at_limit s
      then at_limit_go s t again s.overflow_policy
      else some (accept s t)

  pub add_task : State T → Option T → Option (State T)
  add_task s none = some s
  add_task s (some t) = add_loop 2 s t

  pub shutdown : State T → State T
  shutdown s =
      if s.shutdown_requested then s else drain_state (record s { shutdown_requested = true })

  pub set_max_queue_size : State T → ℕ → State T
  set_max_queue_size s n = if s.shutdown_requested then s else record s { max_queue_size = n }

  pub set_queue_policy : State T → QueuePolicy → State T
  set_queue_policy s p = if s.shutdown_requested then s else record s { overflow_policy = p }

  -- A scheduled drain fires: drain_thunk.
  pub drain_thunk : State T → State T
  drain_thunk s =
      if ltb 0 s.drains_due then drain_state (record s { drains_due = s.drains_due - 1 }) else s

-- `waits` is `wait()`, which drains.
pub data Call (T : Type 0) : Type 0 where
  adds : Option T → Call T
  waits : Call T
  fires : Call T
  shuts_down : Call T
  sets_max : ℕ → Call T
  sets_policy : QueuePolicy → Call T
  resets : Call T

module _ {T : Type 0} where
  pub step : State T → Call T → Option (State T)
  step s (adds t) = add_task s t
  step s waits = some (drain_state s)
  step s fires = some (drain_thunk s)
  step s shuts_down = some (shutdown s)
  step s (sets_max n) = some (set_max_queue_size s n)
  step s (sets_policy p) = some (set_queue_policy s p)
  step s resets = some (record s { dropped_tasks = 0 })

  abbrev pub then_run : Option (State T) → (State T → Option (State T)) → Option (State T)
  then_run none k = none
  then_run (some s) k = k s

  pub run : State T → List (Call T) → Option (State T)
  run s [] = some s
  run s (c ∷ cs) = then_run (step s c) (λ u. run u cs)
