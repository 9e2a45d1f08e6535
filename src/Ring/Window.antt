-- ===== src/Ring/Window.antt =====
-- Cells and sequence numbers: positions less than a lap apart use different cells, and the signed
-- difference orders small numbers.
use native.Mathlib.Nat.{div-add-mod}
use native.Mathlib.Decide.{dec_lt}
use log_it_cpp.Base.{
  ℕ, zero, suc, ◌+◌, ◌/◌, ◌%◌, ◌^◌, ◌≤◌, ◌<◌, ◌≡◌, ◌≢◌, refl, sym, ap, ◌∙◌, true, false, ltb, ◌==◌,
  arith, List, [], ◌∷◌, ◌++◌, length, get_elem?, none, some, take,
}
use log_it_cpp.Base.Ints.{pos, ltb_ℤ, ◌-ℤ◌}
use log_it_cpp.Ring.{diff, is_zero, set_at}

-- Equal remainders and a distance under one lap: the quotients settle the order.
pub cells_ne : (cap p q : ℕ) → 0 < cap → p < q → q < p + cap → p % cap ≢ q % cap
cells_ne cap p q h lt near e = elim (dec_lt (p / cap) (q / cap)) [
  | yes later ↦ grind (arith, div-add-mod p cap, div-add-mod q cap, e)
  | no same ↦ grind (arith, div-add-mod p cap, div-add-mod q cap, e)
]

pub diff_zero : (a b : ℕ) → a < 2 ^ 63 → b < 2 ^ 63 → is_zero (diff a b) ≡ (a == b)
unfolding diff ◌-ℤ◌
diff_zero a b ha hb = ground arith

pub diff_negative : (a b : ℕ) → a < 2 ^ 63 → b < 2 ^ 63 → ltb_ℤ (diff a b) (pos 0) ≡ ltb a b
unfolding diff ◌-ℤ◌
diff_negative a b ha hb = ground arith

pub window_ne :
    (cap lo p q : ℕ) → lo ≤ p → p < lo + cap → lo ≤ q → q < lo + cap → p ≢ q → p % cap ≢ q % cap
window_ne cap lo p q a b c d ne e = elim (dec_lt p q) [
  | yes lt ↦ cells_ne cap p q (omega arith) lt (omega arith) e
  | no ge ↦ cells_ne cap q p (omega arith) (omega arith) (omega arith) (sym e)
]

module _ {ℓ} {A : Type ℓ} (f : ℕ → A) (k : ℕ) (a : A) where
  pub set_at_self : {j : ℕ} → j ≡ k → set_at f k a j ≡ a
  set_at_self {j} e = rw (let h : (j == k) ≡ true = ground arith in h)

  pub set_at_ne : {j : ℕ} → j ≢ k → set_at f k a j ≡ f j
  set_at_ne {j} ne = rw (let h : (j == k) ≡ false = ground arith in h)

module _ {ℓ} {A : Type ℓ} where
  pub get_elem?-append_last : (xs : List A) (a : A) → get_elem? (xs ++ a ∷ []) (length xs) ≡ some a
  get_elem?-append_last [] a = refl
  get_elem?-append_last (x ∷ xs) a = get_elem?-append_last xs a

  pub get_elem?-append_left :
      (xs : List A) (a : A) (i : ℕ) → i < length xs → get_elem? (xs ++ a ∷ []) i ≡ get_elem? xs i
  get_elem?-append_left [] a i h = absurd (omega arith)
  get_elem?-append_left (x ∷ xs) a zero h = refl
  get_elem?-append_left (x ∷ xs) a (suc i) h = get_elem?-append_left xs a i (omega arith)

  pub take-append_left :
      (n : ℕ) (xs : List A) (a : A) → n ≤ length xs → take n (xs ++ a ∷ []) ≡ take n xs
  take-append_left zero xs a h = refl
  take-append_left (suc n) [] a h = absurd (omega arith)
  take-append_left (suc n) (x ∷ xs) a h = ap (◌∷◌ x) (take-append_left n xs a (omega arith))

  pub take_next :
      (n : ℕ) (xs : List A) {x : A}
      → get_elem? xs n ≡ some x
      → take (suc n) xs ≡ take n xs ++ x ∷ []
  take_next zero [] e = cc
  take_next zero (y ∷ xs) {x} e = let h : y ≡ x = cc in ap (λ z. z ∷ []) h
  take_next (suc n) [] e = cc
  take_next (suc n) (y ∷ xs) e = ap (◌∷◌ y) (take_next n xs e)

pub diff_zero→eq : (a b : ℕ) → a < 2 ^ 63 → b < 2 ^ 63 → is_zero (diff a b) ≡ true → a ≡ b
diff_zero→eq a b ha hb e = ground (arith, sym (diff_zero a b ha hb) ∙ e)

pub diff_negative→lt : (a b : ℕ) → a < 2 ^ 63 → b < 2 ^ 63 → ltb_ℤ (diff a b) (pos 0) ≡ true → a < b
diff_negative→lt a b ha hb e = ground (arith, sym (diff_negative a b ha hb) ∙ e)

pub get_elem?-ne-none {ℓ} :
    {A : Type ℓ} (xs : List A) (i : ℕ) → i < length xs → get_elem? xs i ≢ none
get_elem?-ne-none [] i h e = absurd (omega arith)
get_elem?-ne-none (x ∷ xs) zero h e = cc
get_elem?-ne-none (x ∷ xs) (suc i) h e = get_elem?-ne-none xs i (omega arith) e
