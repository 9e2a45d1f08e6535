-- ===== src/Mdbx/Keys/Order.antt =====
-- MdbxKeyUtils.hpp: the order of the keys is the order of the records.
use log_it_cpp.Base.{
  ℕ, ◌+◌, ◌*◌, ◌^◌, ◌≡◌, ◌<◌, ◌⊎◌, inl, inr, refl, sym, ap, ap₂, ◌∙◌, ◌&&◌, ◌||◌, [], ◌∷◌, ltb, leb,
  not, replicate, length, arith,
}
use log_it_cpp.Base.Ints.{ℤ, pos, negsuc, ltb_ℤ}
use log_it_cpp.Record.{Bytes}
use log_it_cpp.Mdbx.{i64_bits}
use log_it_cpp.Mdbx.Numbers.{IsInt64}
use log_it_cpp.Mdbx.Keys.{
  write_be, write_record_key_be, write_record_sequence_be, sortable_ts, make_mdbx_record_key,
  bytes_ltb,
}

-- The number that the bytes write in base 256, after n.
value_from : ℕ → Bytes → ℕ
value_from n [] = n
value_from n (b ∷ bs) = value_from (n * 256 + b) bs

IsBytes : Bytes → Type 0
IsBytes [] = Unit {0}
IsBytes (b ∷ bs) = (b < 256) × IsBytes bs

-- A smaller start stays smaller.
value_from-lt :
    (m n : ℕ) (xs ys : Bytes)
    → length xs ≡ length ys
    → IsBytes xs
    → m < n
    → value_from m xs < value_from n ys
unfolding value_from IsBytes
value_from-lt m n [] [] e b h = h
value_from-lt m n [] (y ∷ ys) e b h = absurd (omega (arith, e))
value_from-lt m n (x ∷ xs) [] e b h = absurd (omega (arith, e))
value_from-lt m n (x ∷ xs) (y ∷ ys) e b h =
    value_from-lt (m * 256 + x) (n * 256 + y) xs ys (omega arith) b.1 (omega (arith, b.0))

compare_cases : (x y : ℕ) → (x < y) ⊎ ((x ≡ y) ⊎ (y < x))
compare_cases x y = ground arith

not_lt : (a b : ℕ) → leb a b ≡ not (ltb b a)
not_lt a b = ground arith

bytes_ltb-value :
    (n : ℕ) (xs ys : Bytes)
    → length xs ≡ length ys
    → IsBytes xs
    → IsBytes ys
    → bytes_ltb xs ys ≡ ltb (value_from n xs) (value_from n ys)
unfolding value_from IsBytes bytes_ltb
bytes_ltb-value n [] [] e bx by = ground arith
bytes_ltb-value n [] (y ∷ ys) e bx by = absurd (omega (arith, e))
bytes_ltb-value n (x ∷ xs) [] e bx by = absurd (omega (arith, e))
bytes_ltb-value n (x ∷ xs) (y ∷ ys) e bx by = elim (compare_cases x y) [
  | inl h ↦
      ground
        (arith, value_from-lt (n * 256 + x) (n * 256 + y) xs ys (omega arith) bx.1 (omega arith))
  | inr (inl h) ↦ ground (
    arith,
    bytes_ltb-value (n * 256 + x) xs ys (omega arith) bx.1 by.1,
    ap (λ z. value_from (n * 256 + z) ys) h,
  )
  | inr (inr h) ↦
      ground
        (arith, value_from-lt (n * 256 + y) (n * 256 + x) ys xs (omega arith) by.1 (omega arith))
]

value-be_bytes :
    (ts sq : ℕ)
    → ts < 2 ^ 64
    → sq < 2 ^ 32
    → value_from 0 (write_record_sequence_be (write_record_key_be (replicate 12 0) ts 0) sq 8)
      ≡ ts * 2 ^ 32 + sq
unfolding value_from write_record_key_be write_record_sequence_be write_be
value-be_bytes ts sq h k = omega arith

sortable_ts-range : (t : ℤ) → sortable_ts t < 2 ^ 64
unfolding sortable_ts
sortable_ts-range t = omega arith

key-IsBytes : (t : ℤ) (sq : ℕ) → IsBytes (make_mdbx_record_key t sq)
unfolding make_mdbx_record_key IsBytes write_record_key_be write_record_sequence_be write_be
key-IsBytes t sq = (
  omega arith,
  (
    omega arith,
    (
      omega arith,
      (
        omega arith,
        (
          omega arith,
          (
            omega arith,
            (
              omega arith,
              (omega arith, (omega arith, (omega arith, (omega arith, (omega arith, tt))))),
            ),
          ),
        ),
      ),
    ),
  ),
)

length-key : (t : ℤ) (sq : ℕ) → length (make_mdbx_record_key t sq) ≡ 12
unfolding make_mdbx_record_key write_record_key_be write_record_sequence_be write_be
length-key t sq = refl

value-key :
    (t : ℤ) (sq : ℕ)
    → sq < 2 ^ 32
    → value_from 0 (make_mdbx_record_key t sq) ≡ sortable_ts t * 2 ^ 32 + sq
unfolding make_mdbx_record_key
value-key t sq h = value-be_bytes (sortable_ts t) sq (sortable_ts-range t) h

-- Flipping the top bit turns the order of the bits into that of the signed numbers.
sortable_ts-lt : (t u : ℤ) → IsInt64 t → IsInt64 u → ltb (sortable_ts t) (sortable_ts u) ≡ ltb_ℤ t u
unfolding sortable_ts i64_bits
sortable_ts-lt (pos m) (pos n) h k = ground arith
sortable_ts-lt (pos m) (negsuc n) h k = ground arith
sortable_ts-lt (negsuc m) (pos n) h k = ground arith
sortable_ts-lt (negsuc m) (negsuc n) h k = ground arith

lexicographic :
    (a b s r : ℕ)
    → s < 2 ^ 32
    → r < 2 ^ 32
    → ltb (a * 2 ^ 32 + s) (b * 2 ^ 32 + r) ≡ (ltb a b || (leb a b && ltb s r))
lexicographic a b s r h k = ground arith

-- The database orders the keys by timestamp, negative ones first, and then by sequence number.
pub bytes_ltb-make_mdbx_record_key :
    (t u : ℤ) (s r : ℕ)
    → IsInt64 t
    → IsInt64 u
    → s < 2 ^ 32
    → r < 2 ^ 32
    → bytes_ltb (make_mdbx_record_key t s) (make_mdbx_record_key u r)
      ≡ (ltb_ℤ t u || (not (ltb_ℤ u t) && ltb s r))
bytes_ltb-make_mdbx_record_key t u s r ht hu hs hr =
    bytes_ltb-value 0 _ _ (length-key t s ∙ sym (length-key u r)) (key-IsBytes t s)
      (key-IsBytes u r)
    ∙ ap₂ ltb (value-key t s hs) (value-key u r hr)
    ∙ lexicographic (sortable_ts t) (sortable_ts u) s r hs hr
    ∙ ap₂ (λ x y. x || (y && ltb s r)) (sortable_ts-lt t u ht hu)
        (not_lt (sortable_ts t) (sortable_ts u) ∙ ap not (sortable_ts-lt u t hu ht))
