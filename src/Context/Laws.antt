-- ===== src/Context/Laws.antt =====
-- LogContext.hpp: the maps and the nesting of guards.
use log_it_cpp.Base.{
  ◌≡◌, refl, sym, ap, ap₂, ◌∙◌, inl, inr, true, ◌&&◌, Option, none, some, List, [], ◌∷◌, ◌++◌, map,
  ◌==◌, ==_iff, if◌then◌else◌, Bool-cases, arith,
}
use log_it_cpp.Record.{Bytes}
use log_it_cpp.Context.{
  Mdc, Context, Snapshot, text_eq, assign, erase, pop_back, or_new, if_exists, mdc_put, mdc_remove,
  mdc_clear, ndc_push, ndc_pop, null_or_empty, capture_log_context, Block, done, puts, removes,
  clears, captures, guarded, run_block,
}

text_eq→eq : (x y : Bytes) → text_eq x y ≡ true → x ≡ y
unfolding text_eq
text_eq→eq [] [] h = refl
text_eq→eq [] (d ∷ y) h = cc
text_eq→eq (c ∷ x) [] h = cc
text_eq→eq (c ∷ x) (d ∷ y) h = elim (Bool-cases (c == d)) [
  | inl e ↦ ap₂ ◌∷◌ ((==_iff c d).0 e) (text_eq→eq x y (sym (ap (λ b. b && text_eq x y) e) ∙ h))
  | inr e ↦ cc (sym (ap (λ b. b && text_eq x y) e) ∙ h)
]

abbrev pub find : Mdc → Bytes → Option Bytes
find [] key = none
find (e ∷ m) key = if text_eq e.0 key then some e.1 else find m key

-- The value of a key.
abbrev pub mdc_value : Context → Bytes → Option Bytes
mdc_value c key = find (or_new c.mdc_storage) key

find-assign :
    (m : Mdc) (key value k : Bytes)
    → find (assign m key value) k ≡ (if text_eq key k then some value else find m k)
unfolding assign
find-assign [] key value k = refl
find-assign (e ∷ m) key value k = elim (Bool-cases (text_eq e.0 key)) [
  | inl h ↦ elim (Bool-cases (text_eq key k)) [
    | inl i ↦ rw (h, i) refl
    | inr i ↦ rw (h, i, ap (λ x. text_eq x k) (text_eq→eq e.0 key h) ∙ i) refl
  ]
  | inr h ↦ elim (Bool-cases (text_eq e.0 k)) [
    | inl i ↦ elim (Bool-cases (text_eq key k)) [
      | inl j ↦ cc (sym h ∙ ap (text_eq e.0) (text_eq→eq key k j) ∙ i)
      | inr j ↦ rw (h, i, j) refl
    ]
    | inr i ↦ rw (h, i) (find-assign m key value k)
  ]
]

find-erase :
    (m : Mdc) (key k : Bytes) → find (erase m key) k ≡ (if text_eq key k then none else find m k)
unfolding erase
find-erase [] key k = ground arith
find-erase (e ∷ m) key k = elim (Bool-cases (text_eq e.0 key)) [
  | inl h ↦ elim (Bool-cases (text_eq key k)) [
    | inl i ↦ rw (h, find-erase m key k, i) refl
    | inr i ↦ rw (h, find-erase m key k, i, ap (λ x. text_eq x k) (text_eq→eq e.0 key h) ∙ i) refl
  ]
  | inr h ↦ elim (Bool-cases (text_eq e.0 k)) [
    | inl i ↦ elim (Bool-cases (text_eq key k)) [
      | inl j ↦ cc (sym h ∙ ap (text_eq e.0) (text_eq→eq key k j) ∙ i)
      | inr j ↦ rw (h, i, j) refl
    ]
    | inr i ↦ rw (h, i) (find-erase m key k)
  ]
]

remove_value :
    (o : Option Mdc) (key k : Bytes)
    → find (or_new (if_exists (λ m. erase m key) o)) k
      ≡ (if text_eq key k then none else find (or_new o) k)
remove_value none key k = ground arith
remove_value (some m) key k = find-erase m key k

clear_value : (o : Option Mdc) (k : Bytes) → find (or_new (if_exists (λ m. []) o)) k ≡ none
clear_value none k = refl
clear_value (some m) k = refl

-- Putting a key gives it the value, removing it takes it away, neither changes another key, and
-- clearing takes all away; this holds from the first use of the context on.
mdc_value-calls :
    (c : Context) (key value k : Bytes)
    → (mdc_value (mdc_put c key value) k ≡ (if text_eq key k then some value else mdc_value c k))
      × (mdc_value (mdc_remove c key) k ≡ (if text_eq key k then none else mdc_value c k))
      × (mdc_value (mdc_clear c) k ≡ none)
unfolding mdc_put mdc_remove mdc_clear
mdc_value-calls c key value k = (
  find-assign (or_new c.mdc_storage) key value k,
  remove_value c.mdc_storage key k,
  clear_value c.mdc_storage k,
)

abbrev pub stack : Context → List Bytes
stack c = or_new c.ndc_storage

pop-push : (xs : List Bytes) (x : Bytes) → pop_back (xs ++ x ∷ []) ≡ xs
unfolding pop_back
pop-push [] x = refl
pop-push (y ∷ []) x = refl
pop-push (y ∷ z ∷ xs) x = ap (◌∷◌ y) (pop-push (z ∷ xs) x)

stack-ndc_pop :
    (c : Context) (xs : List Bytes) (m : Bytes) → stack c ≡ xs ++ m ∷ [] → stack (ndc_pop c) ≡ xs
unfolding ndc_pop
stack-ndc_pop c xs m h = go c.ndc_storage h
  where
    go : (o : Option (List Bytes)) → or_new o ≡ xs ++ m ∷ [] → or_new (if_exists pop_back o) ≡ xs
    go none h = absurd (not_nil xs h)
      where
        not_nil : (ys : List Bytes) → ◌≡◌ {A = List Bytes} [] (ys ++ m ∷ []) → ⊥
        not_nil [] e = cc
        not_nil (y ∷ ys) e = cc
    go (some s) h = ap pop_back h ∙ pop-push xs m

-- A block with its guards leaves the stack as it was.
stack-run_block : (b : Block) (c : Context) → stack (run_block b c).0 ≡ stack c
unfolding run_block mdc_put mdc_remove mdc_clear ndc_push
stack-run_block done c = refl
stack-run_block (puts k v b) c = stack-run_block b _
stack-run_block (removes k b) c = stack-run_block b _
stack-run_block (clears b) c = stack-run_block b _
stack-run_block (captures b) c = stack-run_block b c
stack-run_block (guarded m body b) c =
    stack-run_block b _
    ∙ stack-ndc_pop (run_block body (ndc_push c m)).0 (stack c) m
        (stack-run_block body (ndc_push c m))

pub ndc_of : Option Snapshot → List Bytes
ndc_of none = []
ndc_of (some s) = s.ndc

-- The messages around each capture, from the outermost guard inwards.
pub nesting : Block → List Bytes → List (List Bytes)
nesting done around = []
nesting (puts k v b) around = nesting b around
nesting (removes k b) around = nesting b around
nesting (clears b) around = nesting b around
nesting (captures b) around = around ∷ nesting b around
nesting (guarded m body b) around = nesting body (around ++ m ∷ []) ++ nesting b around

ndc-capture : (c : Context) → ndc_of (capture_log_context c) ≡ stack c
unfolding capture_log_context ndc_of
ndc-capture c = go c.mdc_storage c.ndc_storage
  where
    go :
        (m : Option Mdc) (n : Option (List Bytes))
        → ndc_of (
            if null_or_empty m && null_or_empty n
            then none
            else some (record { mdc = or_new m; ndc = or_new n }))
          ≡ or_new n
    go none none = refl
    go none (some []) = refl
    go none (some (x ∷ n)) = refl
    go (some []) none = refl
    go (some []) (some []) = refl
    go (some []) (some (x ∷ n)) = refl
    go (some (x ∷ m)) n = refl

map-append {ℓ κ} :
    {A : Type ℓ} {B : Type κ} (f : A → B) (xs ys : List A) → map f (xs ++ ys) ≡ map f xs ++ map f ys
map-append f [] ys = refl
map-append f (x ∷ xs) ys = ap (◌∷◌ (f x)) (map-append f xs ys)

captured : (b : Block) (c : Context) → map ndc_of (run_block b c).1 ≡ nesting b (stack c)
unfolding run_block nesting mdc_put mdc_remove mdc_clear ndc_push
captured done c = refl
captured (puts k v b) c = captured b _
captured (removes k b) c = captured b _
captured (clears b) c = captured b _
captured (captures b) c = ap₂ ◌∷◌ (ndc-capture c) (captured b c)
captured (guarded m body b) c =
    map-append ndc_of (run_block body (ndc_push c m)).1 _
    ∙ ap₂ ◌++◌ (captured body (ndc_push c m)) (
        captured b _
        ∙ ap (nesting b) (
            stack-ndc_pop (run_block body (ndc_push c m)).0 (stack c) m
              (stack-run_block body (ndc_push c m))))

-- In code that uses the NDC through guards only, each captured record carries the messages of the
-- guards around it, outermost first, after those of the thread, and the stack is in the end what it
-- was.
captures-run_block :
    (b : Block) (c : Context)
    → (map ndc_of (run_block b c).1 ≡ nesting b (stack c)) × (stack (run_block b c).0 ≡ stack c)
captures-run_block b c = (captured b c, stack-run_block b c)

-- mdc_put gives a key its value, mdc_remove takes it away, neither changes another key, and
-- mdc_clear takes all away, on an unused context too; in a block that uses the NDC through guards
-- only, each captured record carries the messages of the guards around it, outermost first, after
-- those of the thread, and the stack is in the end what it was.
pub context_lem :
    (c : Context) (key value k : Bytes) (b : Block)
    → (mdc_value (mdc_put c key value) k ≡ (if text_eq key k then some value else mdc_value c k))
      × (mdc_value (mdc_remove c key) k ≡ (if text_eq key k then none else mdc_value c k))
      × (mdc_value (mdc_clear c) k ≡ none)
      × (map ndc_of (run_block b c).1 ≡ nesting b (stack c))
      × (stack (run_block b c).0 ≡ stack c)
context_lem c key value k b =
    let (x, y, z) = mdc_value-calls c key value k in
    let (v, w) = captures-run_block b c in (x, y, z, v, w)
