-- ===== src/Executor/Both.antt =====
-- SingleThreadExecutor.hpp and TaskExecutor.hpp: what both executors keep in every run.
use log_it_cpp.Base.{List}
use log_it_cpp.Executor.{init}
use log_it_cpp.Executor.History.{IsFaithful}
use log_it_cpp.Executor.Single
use log_it_cpp.Executor.Task
use log_it_cpp.Executor.Single.Laws.{run-init-IsFaithful}
use log_it_cpp.Executor.Task.Laws.{task_run-IsFaithful}

module _ {T : Type 0} where
  -- In every run of a new executor, of either class, the tasks leave the queue in the order they
  -- entered it, the started ones complete in that order, the active count is the running task, and
  -- the worker exits only when stopped with an empty queue.
  pub both_runs-IsFaithful :
      (cs : List (Single.Call T)) (ds : List (Task.Call T))
      → IsFaithful (Single.run (init T) cs) × IsFaithful (Task.run (init T) ds)
  both_runs-IsFaithful cs ds = (run-init-IsFaithful cs, task_run-IsFaithful ds)
