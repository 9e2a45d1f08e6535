-- ===== src/Executor/Cooperative/Tests.antt =====
-- Concrete runs of the cooperative executor, with numbers for tasks.
use log_it_cpp.Base.{ℕ, ◌≡◌, refl, Option, none, some, List, [], ◌∷◌}
use log_it_cpp.Executor.Cooperative.{
  State, new_state, Call, adds, sets_max, run, step, add_task, add_loop, at_limit_go, accept,
  drain_state, drain_loop, set_max_queue_size,
}
use log_it_cpp.Executor.Cooperative.Progress.{Returns, run-new_state-Returns}

-- The second task finds the queue full under the Block policy: the first one runs at once.
abbrev full_once : List (Call ℕ)
full_once = sets_max 1 ∷ adds (some 1) ∷ adds (some 2) ∷ []

abbrev completed_of : Option (State ℕ) → List ℕ
completed_of none = []
completed_of (some s) = s.completed

full_once_test : completed_of (run (new_state ℕ) full_once) ≡ 1 ∷ []
unfolding run step add_task add_loop at_limit_go accept drain_state drain_loop set_max_queue_size
full_once_test = refl

run-new_state-Returns_example : Returns (run (new_state ℕ) full_once)
run-new_state-Returns_example = run-new_state-Returns full_once
