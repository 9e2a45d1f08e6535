-- ===== src/Executor.antt =====
-- detail/SingleThreadExecutor.hpp and detail/TaskExecutor.hpp (the builds with a worker thread and
-- a std::deque): the state that the two classes share. A task is a value of any type `T`; what it
-- does is not looked at. Each critical section of the mutex is one step. A producer that waits for
-- room stands in `waiting`, and wakes at any time, since condition variables may wake for no
-- reason. `accepted`, `removed` and `completed` record the history: the tasks that entered the
-- queue, those that left it with the reason, and those that ran to the end.
pub mod History
pub mod Single
pub mod Task
pub mod Cooperative
pub mod Both
use log_it_cpp.Base.{
  ℕ, ◌+◌, ◌-◌, Bool, true, false, ◌&&◌, ◌||◌, not, List, [], ◌∷◌, ◌++◌, ltb, leb, ◌==◌,
  if◌then◌else◌, length,
}

-- detail/QueuePolicy.hpp.
pub data QueuePolicy : Type 0 where
  drop_newest drop_oldest block : QueuePolicy

-- Why a task left the queue.
pub data Removal : Type 0 where
  started dropped : Removal

pub data Worker (T : Type 0) : Type 0 where
  idle : Worker T
  running : T → Worker T
  exited : Worker T

pub record Executor (T : Type 0) : Type 0 where
  pub queue : List T
  pub stop : Bool
  pub shutdown_done : Bool
  pub max_queue_size : ℕ
  pub overflow_policy : QueuePolicy
  pub dropped_tasks : ℕ
  pub active_tasks : ℕ
  pub worker : Worker T
  pub waiting : List T
  pub accepted : List T
  pub removed : List (T × Removal)
  pub completed : List T

abbrev pub init : (T : Type 0) → Executor T
init T = record {
  queue = [];
  stop = false;
  shutdown_done = false;
  max_queue_size = 0;
  overflow_policy = block;
  dropped_tasks = 0;
  active_tasks = 0;
  worker = idle;
  waiting = [];
  accepted = [];
  removed = [];
  completed = [];
}

abbrev pub is_empty {ℓ} : {A : Type ℓ} → List A → Bool
is_empty [] = true
is_empty (x ∷ xs) = false

module _ {T : Type 0} where
  -- `m_queue.push_back(std::move(task))`
  pub enqueue : Executor T → T → Executor T
  enqueue s t = record s { queue = s.queue ++ t ∷ []; accepted = s.accepted ++ t ∷ [] }

  -- `if (!m_queue.empty()) { m_queue.pop_front(); ++m_dropped_tasks; }`
  pub drop_front : Executor T → List T → Executor T
  drop_front s [] = s
  drop_front s (t ∷ ts) = record s {
    queue = ts;
    dropped_tasks = s.dropped_tasks + 1;
    removed = s.removed ++ (t, dropped) ∷ [];
  }

  abbrev pub is_full : Executor T → Bool
  is_full s = ltb 0 s.max_queue_size && leb s.max_queue_size (length s.queue)

  -- The switch on the policy when the queue is full.
  pub overflow : Executor T → T → QueuePolicy → Executor T
  overflow s t drop_newest = record s { dropped_tasks = s.dropped_tasks + 1 }
  overflow s t drop_oldest = enqueue (drop_front s s.queue) t
  overflow s t block = record s { waiting = s.waiting ++ t ∷ [] }

  -- `task = front; pop_front(); m_active_tasks += 1`, on a queue that is not empty.
  pub take_front : Executor T → List T → Executor T
  take_front s [] = s
  take_front s (t ∷ ts) = record s {
    queue = ts;
    active_tasks = s.active_tasks + 1;
    worker = running t;
    removed = s.removed ++ (t, started) ∷ [];
  }

  -- What the worker does with the lock held: wait (no change), exit or take a task.
  pub worker_go : Executor T → Worker T → Executor T
  worker_go s idle =
      if s.stop && is_empty s.queue then record s { worker = exited } else take_front s s.queue
  worker_go s (running t) = record s {
    active_tasks = s.active_tasks - 1;
    worker = idle;
    completed = s.completed ++ t ∷ [];
  }
  worker_go s exited = s

  -- The first waiting producer wakes with the answer of its condition, and looks at the stop flag.
  pub wake : Executor T → Bool → List T → Executor T
  wake s can_go [] = s
  wake s can_go (t ∷ ts) =
      if can_go
      then if s.stop then record s { waiting = ts } else enqueue (record s { waiting = ts }) t
      else record s { waiting = ts ++ t ∷ [] }
