-- ===== src/Base/Store.antt =====
-- Stores: association lists over keys whose equality can be decided. A list of files in a
-- directory, and a map of the standard library. Proofs elsewhere go by the laws.
use mathlib.Core.Path.{◌≡◌, refl}
use mathlib.Core.Logic.{◌≢◌, ite, if_pos, if_neg}
use mathlib.Core.Bool.{Bool, true, false}
use mathlib.Core.Option.{Option, none, some}
use mathlib.Core.List.{List, [], ◌∷◌}
use native.Mathlib.Omega.{arith}
use log_it_cpp.Base.{if◌then◌else◌}

pub record Eq {ℓ} (A : Type ℓ) : Type ℓ where
  pub dec : Discrete A

infix 50 ◌=?◌
abbrev pub ◌=?◌ {ℓ} : {A : Type ℓ} ⦃e : Eq A⦄ → A → A → Bool
◌=?◌ ⦃e⦄ a b = ite (e.dec a b) true false

pub =?_refl {ℓ} : {A : Type ℓ} ⦃e : Eq A⦄ (a : A) → (a =? a) ≡ true
=?_refl ⦃e⦄ a = if_pos (e.dec a a) refl true false

pub =?→eq {ℓ} : {A : Type ℓ} ⦃e : Eq A⦄ (a b : A) → (a =? b) ≡ true → a ≡ b
=?→eq ⦃e⦄ a b h = ground arith

pub ne→=? {ℓ} : {A : Type ℓ} ⦃e : Eq A⦄ (a b : A) → a ≢ b → (a =? b) ≡ false
ne→=? ⦃e⦄ a b h = if_neg (e.dec a b) h true false

module _ {K V : Type 0} ⦃e : Eq K⦄ where
  unfoldable pub find : K → List (K × V) → Option V
  find k [] = none
  find k ((j, w) ∷ d) = if j =? k then some w else find k d

  unfoldable pub put : K → V → List (K × V) → List (K × V)
  put k v [] = (k, v) ∷ []
  put k v ((j, w) ∷ d) = if j =? k then (k, v) ∷ d else (j, w) ∷ put k v d

  -- The entries whose key passes the test.
  unfoldable pub retain : (K → Bool) → List (K × V) → List (K × V)
  retain keep [] = []
  retain keep ((j, w) ∷ d) = let rest = retain keep d in if keep j then (j, w) ∷ rest else rest

  unfoldable pub remove : K → List (K × V) → List (K × V)
  unfolding retain
  remove k d = retain (λ j. if j =? k then false else true) d

  abbrev pub exists? : K → List (K × V) → Bool
  exists? k d = elim (find k d) [ none ↦ false | some v ↦ true ]

  abbrev pub keys : List (K × V) → List K
  keys [] = []
  keys ((j, w) ∷ d) = j ∷ keys d

  pub find-put :
      (j k : K) (v : V) (d : List (K × V))
      → find j (put k v d) ≡ (if k =? j then some v else find j d)
  unfolding find put
  find-put j k v [] = refl
  find-put j k v ((i, w) ∷ d) = ground (arith, find-put j k v d)

  pub find-retain :
      (keep : K → Bool) (j : K) (d : List (K × V))
      → find j (retain keep d) ≡ (if keep j then find j d else none)
  unfolding find retain
  find-retain keep j [] = ground arith
  find-retain keep j ((i, w) ∷ d) = ground (arith, find-retain keep j d)

  pub find-remove :
      (j k : K) (d : List (K × V)) → find j (remove k d) ≡ (if j =? k then none else find j d)
  unfolding remove
  find-remove j k d = ground (arith, find-retain (λ i. if i =? k then false else true) j d)
