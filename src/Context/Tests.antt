-- ===== src/Context/Tests.antt =====
-- Concrete contexts.
use log_it_cpp.Base.{◌≡◌, refl, none, some, [], ◌∷◌, map, if◌then◌else◌}
use log_it_cpp.Context.{
  Context, mdc_put, mdc_remove, mdc_clear, text_eq, Block, done, puts, captures, guarded, run_block,
  ndc_push, ndc_pop, pop_back,
}
use log_it_cpp.Context.Laws.{mdc_value, context_lem, stack, ndc_of, nesting}

abbrev new_thread : Context
new_thread = record { mdc_storage = none; ndc_storage = none }

-- A capture inside two guards and one after them.
abbrev two_guards : Block
two_guards =
    guarded (7 ∷ []) (puts (1 ∷ []) (2 ∷ []) (guarded (8 ∷ []) (captures done) done))
      (captures done)

two_guards_test : (run_block two_guards new_thread).0.ndc_storage ≡ some []
unfolding run_block ndc_push ndc_pop pop_back mdc_put
two_guards_test = refl

context_lem_example :
    (mdc_value (mdc_put new_thread (1 ∷ []) (2 ∷ [])) (1 ∷ [])
      ≡ (if text_eq (1 ∷ []) (1 ∷ []) then some (2 ∷ []) else mdc_value new_thread (1 ∷ [])))
    × (mdc_value (mdc_remove new_thread (1 ∷ [])) (1 ∷ [])
        ≡ (if text_eq (1 ∷ []) (1 ∷ []) then none else mdc_value new_thread (1 ∷ [])))
    × (mdc_value (mdc_clear new_thread) (1 ∷ []) ≡ none)
    × (map ndc_of (run_block two_guards new_thread).1 ≡ nesting two_guards (stack new_thread))
    × (stack (run_block two_guards new_thread).0 ≡ stack new_thread)
context_lem_example = context_lem new_thread (1 ∷ []) (2 ∷ []) (1 ∷ []) two_guards
