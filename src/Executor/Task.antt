-- ===== src/Executor/Task.antt =====
-- detail/TaskExecutor.hpp, the native build without LOGIT_USE_MPSC_RING. It differs from the
-- SingleThreadExecutor in the condition of a blocked producer and of `wait`, in `shutdown`, and in
-- that a task's exception is not caught; the tasks of the model do not throw.
pub mod Laws
mod Tests
use log_it_cpp.Base.{
  ℕ, Bool, true, false, ◌&&◌, ◌||◌, Option, none, some, List, [], ◌∷◌, ltb, ◌==◌, if◌then◌else◌,
  length,
}
use log_it_cpp.Executor.{
  QueuePolicy, Executor, is_empty, enqueue, is_full, overflow, worker_go, wake,
}

module _ {T : Type 0} where
  pub add_task : Executor T → Option T → Executor T
  add_task s none = s
  add_task s (some t) =
      if s.stop then s else if is_full s then overflow s t s.overflow_policy else enqueue s t

  pub can_go : Executor T → Bool
  can_go s = ltb (length s.queue) s.max_queue_size || s.stop

  pub wake_producer : Executor T → Executor T
  wake_producer s = wake s (can_go s) s.waiting

  pub wait_done : Executor T → Bool
  wait_done s = (is_empty s.queue && s.active_tasks == 0) || s.stop

  pub shutdown : Executor T → Executor T
  shutdown s = record s { stop = true }

  pub set_max_queue_size : Executor T → ℕ → Executor T
  set_max_queue_size s n = if s.stop then s else record s { max_queue_size = n }

  pub set_queue_policy : Executor T → QueuePolicy → Executor T
  set_queue_policy s p = if s.stop then s else record s { overflow_policy = p }

  pub reset_dropped_tasks : Executor T → Executor T
  reset_dropped_tasks s = record s { dropped_tasks = 0 }

-- `works` is one critical section of `worker_function`.
pub data Call (T : Type 0) : Type 0 where
  adds : Option T → Call T
  wakes : Call T
  works : Call T
  shuts_down : Call T
  sets_max : ℕ → Call T
  sets_policy : QueuePolicy → Call T
  resets : Call T

module _ {T : Type 0} where
  pub step : Executor T → Call T → Executor T
  step s (adds t) = add_task s t
  step s wakes = wake_producer s
  step s works = worker_go s s.worker
  step s shuts_down = shutdown s
  step s (sets_max n) = set_max_queue_size s n
  step s (sets_policy p) = set_queue_policy s p
  step s resets = reset_dropped_tasks s

  pub run : Executor T → List (Call T) → Executor T
  run s [] = s
  run s (c ∷ cs) = run (step s c) cs
