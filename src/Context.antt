-- ===== src/Context.antt =====
-- detail/LogContext.hpp: the diagnostic context of one thread. Both storages are null until their
-- first use. A std::map is the list of its entries, each key once; its order is not modelled, and
-- lookups do not depend on it. A std::vector is the list of its elements, the back being last.
pub mod Laws
mod Tests
use log_it_cpp.Base.{
  ℕ, Bool, true, false, ◌&&◌, Option, none, some, List, [], ◌∷◌, ◌++◌, ◌==◌, if◌then◌else◌,
}
use log_it_cpp.Record.{Bytes}

abbrev pub Mdc : Type 0
Mdc = List (Bytes × Bytes)

pub record Context : Type 0 where
  pub mdc_storage : Option Mdc
  pub ndc_storage : Option (List Bytes)

pub record Snapshot : Type 0 where
  pub mdc : Mdc
  pub ndc : List Bytes

unfoldable pub text_eq : Bytes → Bytes → Bool
text_eq [] [] = true
text_eq [] (y ∷ ys) = false
text_eq (x ∷ xs) [] = false
text_eq (x ∷ xs) (y ∷ ys) = x == y && text_eq xs ys

-- `map[key] = value`
pub assign : Mdc → Bytes → Bytes → Mdc
assign [] key value = (key, value) ∷ []
assign (e ∷ m) key value = if text_eq e.0 key then (key, value) ∷ m else e ∷ assign m key value

pub erase : Mdc → Bytes → Mdc
erase [] key = []
erase (e ∷ m) key = let rest = erase m key in if text_eq e.0 key then rest else e ∷ rest

pub pop_back : List Bytes → List Bytes
pop_back [] = []
pop_back (x ∷ []) = []
pop_back (x ∷ y ∷ xs) = x ∷ pop_back (y ∷ xs)

-- `mutable_mdc_map()` and `mutable_ndc_stack()` create the storage when there is none.
abbrev pub or_new {ℓ} : {A : Type ℓ} → Option (List A) → List A
or_new none = []
or_new (some xs) = xs

abbrev pub if_exists {ℓ} : {A : Type ℓ} → (A → A) → Option A → Option A
if_exists f none = none
if_exists f (some x) = some (f x)

pub mdc_put : Context → Bytes → Bytes → Context
mdc_put c key value = record c { mdc_storage = some (assign (or_new c.mdc_storage) key value) }

pub mdc_remove : Context → Bytes → Context
mdc_remove c key = record c { mdc_storage = if_exists (λ m. erase m key) c.mdc_storage }

pub mdc_clear : Context → Context
mdc_clear c = record c { mdc_storage = if_exists (λ m. []) c.mdc_storage }

pub ndc_push : Context → Bytes → Context
ndc_push c message = record c { ndc_storage = some (or_new c.ndc_storage ++ message ∷ []) }

pub ndc_pop : Context → Context
ndc_pop c = record c { ndc_storage = if_exists pop_back c.ndc_storage }

pub ndc_clear : Context → Context
ndc_clear c = record c { ndc_storage = if_exists (λ s. []) c.ndc_storage }

abbrev pub null_or_empty {ℓ} : {A : Type ℓ} → Option (List A) → Bool
null_or_empty none = true
null_or_empty (some []) = true
null_or_empty (some (x ∷ xs)) = false

pub capture_log_context : Context → Option Snapshot
capture_log_context c =
    if null_or_empty c.mdc_storage && null_or_empty c.ndc_storage
    then none
    else some (record { mdc = or_new c.mdc_storage; ndc = or_new c.ndc_storage })

-- A block of code as far as the context sees it: `guarded m b` is a block with an NdcGuard for
-- the message m before b, and the guard's destructor at its end.
pub data Block : Type 0 where
  done : Block
  puts : Bytes → Bytes → Block → Block
  removes : Bytes → Block → Block
  clears : Block → Block
  captures : Block → Block
  guarded : Bytes → Block → Block → Block

-- The context after the block, and the snapshots it captured.
pub run_block : Block → Context → Context × List (Option Snapshot)
run_block done c = (c, [])
run_block (puts k v b) c = run_block b (mdc_put c k v)
run_block (removes k b) c = run_block b (mdc_remove c k)
run_block (clears b) c = run_block b (mdc_clear c)
run_block (captures b) c = let r = run_block b c in (r.0, capture_log_context c ∷ r.1)
run_block (guarded m body b) c =
    let inner = run_block body (ndc_push c m) in
    let r = run_block b (ndc_pop inner.0) in (r.0, inner.1 ++ r.1)
