-- ===== src/Base/Decimal.antt =====
-- How a stream, std::to_string and printf write whole numbers: in decimal.
use Prim.Native.Nat.{ℕ, zero, suc, ◌+◌, ◌-◌, ◌*◌, ◌/◌, ◌%◌, ◌<◌}
use mathlib.Core.List.{List, [], ◌∷◌, ◌++◌}
use log_it_cpp.Base.{
  ltb→lt, ◌*◌, ◌≤◌, length-replicate, ltb, leb, if◌then◌else◌, if_elim, and_parts, length,
  length-append, all, replicate, ◌≡◌, refl, ap, ◌∙◌, Bool, true, false, ◌&&◌, arith,
}
use log_it_cpp.Base.Ints.{ℤ, pos, negsuc}

-- The number in decimal; `rounds` bounds the digits.
unfoldable pub decimal : ℕ → ℕ → List ℕ
decimal zero n = []
decimal (suc rounds) n =
    let front = decimal rounds (n / 10) in
    if ltb n 10 then (48 + n) ∷ [] else front ++ (48 + n % 10) ∷ []

abbrev pub show_nat : ℕ → List ℕ
show_nat n = decimal (suc n) n

abbrev pub show_int : ℤ → List ℕ
show_int (pos n) = show_nat n
show_int (negsuc n) = b'-' ∷ show_nat (suc n)

-- `std::setw(width) << std::setfill(fill)` before a number, and the widths and precisions of printf.
abbrev pub fill_left : ℕ → ℕ → List ℕ → List ℕ
fill_left fill width text = replicate (width - length text) fill ++ text

abbrev pub is_digit : ℕ → Bool
is_digit c = leb 48 c && leb c 57

-- A reader of a number: its digits, after a number read already, and what follows them.
unfoldable pub read_nat : ℕ → List ℕ → ℕ × List ℕ
read_nat n [] = (n, [])
read_nat n (c ∷ t) =
    let more = read_nat (n * 10 + (c - 48)) t in if is_digit c then more else (n, c ∷ t)

abbrev pub starts_digit : List ℕ → Bool
starts_digit [] = false
starts_digit (c ∷ t) = is_digit c

abbrev value_from : ℕ → List ℕ → ℕ
value_from n [] = n
value_from n (c ∷ t) = value_from (n * 10 + (c - 48)) t

read_nat-stop : (n : ℕ) (rest : List ℕ) → starts_digit rest ≡ false → read_nat n rest ≡ (n, rest)
unfolding read_nat
read_nat-stop n [] h = refl
read_nat-stop n (c ∷ t) h = rw h refl

read_nat-append :
    (n : ℕ) (xs rest : List ℕ)
    → all is_digit xs ≡ true
    → read_nat n (xs ++ rest) ≡ read_nat (value_from n xs) rest
unfolding read_nat
read_nat-append n [] rest h = refl
read_nat-append n (c ∷ xs) rest h =
    let p = and_parts (is_digit c) (all is_digit xs) h in
    rw (p.0) (read_nat-append (n * 10 + (c - 48)) xs rest p.1)

value_from-append :
    (n : ℕ) (xs ys : List ℕ) → value_from n (xs ++ ys) ≡ value_from (value_from n xs) ys
value_from-append n [] ys = refl
value_from-append n (c ∷ xs) ys = value_from-append (n * 10 + (c - 48)) xs ys

value_from-decimal : (rounds n : ℕ) → n < rounds → value_from 0 (decimal rounds n) ≡ n
unfolding decimal
value_from-decimal zero n h = absurd (omega (arith, h))
value_from-decimal (suc rounds) n h =
    if_elim (λ xs. value_from 0 xs ≡ n) (ltb n 10) ((48 + n) ∷ [])
      (decimal rounds (n / 10) ++ (48 + n % 10) ∷ []) (λ i. omega arith)
      (λ i.
        value_from-append 0 (decimal rounds (n / 10)) ((48 + n % 10) ∷ [])
        ∙ ap (λ v. v * 10 + (48 + n % 10 - 48))
            (value_from-decimal rounds (n / 10) (ground (arith, h, i)))
        ∙ omega arith)

pub all-append :
    (P : ℕ → Bool) (xs ys : List ℕ) → all P xs ≡ true → all P ys ≡ true → all P (xs ++ ys) ≡ true
all-append P [] ys h k = k
all-append P (c ∷ xs) ys h k =
    let o = and_parts (P c) (all P xs) h in rw (o.0) (all-append P xs ys (o.1) k)

pub digits-decimal : (rounds n : ℕ) → all is_digit (decimal rounds n) ≡ true
unfolding decimal
digits-decimal zero n = refl
digits-decimal (suc rounds) n =
    if_elim (λ xs. all is_digit xs ≡ true) (ltb n 10) ((48 + n) ∷ [])
      (decimal rounds (n / 10) ++ (48 + n % 10) ∷ []) (λ i. ground (arith, i))
      (λ i.
        all-append is_digit (decimal rounds (n / 10)) _ (digits-decimal rounds (n / 10))
          (ground arith))

-- A number is read back from its digits.
pub read_nat-show_nat :
    (n : ℕ) (rest : List ℕ)
    → starts_digit rest ≡ false
    → read_nat 0 (show_nat n ++ rest) ≡ (n, rest)
read_nat-show_nat n rest h =
    read_nat-append 0 (show_nat n) rest (digits-decimal (suc n) n)
    ∙ ap (λ v. read_nat v rest) (value_from-decimal (suc n) n (omega arith))
    ∙ read_nat-stop n rest h

pub length-decimal : (rounds n : ℕ) → 0 < length (decimal (suc rounds) n)
unfolding decimal
length-decimal rounds n =
    if_elim (λ xs. 0 < length xs) (ltb n 10) ((48 + n) ∷ [])
      (decimal rounds (n / 10) ++ (48 + n % 10) ∷ []) (λ i. omega arith)
      (λ i. omega (arith, length-append (decimal rounds (n / 10)) ((48 + n % 10) ∷ [])))

-- The first byte of a number is a digit.
pub show_nat-cons : (n : ℕ) → (c : ℕ) × (t : List ℕ) × (show_nat n ≡ c ∷ t) × (is_digit c ≡ true)
show_nat-cons n = cons_of (show_nat n) (digits-decimal (suc n) n) (length-decimal n n)
  where
    cons_of :
        (xs : List ℕ)
        → all is_digit xs ≡ true
        → 0 < length xs
        → (c : ℕ) × (t : List ℕ) × (xs ≡ c ∷ t) × (is_digit c ≡ true)
    cons_of [] h k = absurd (omega (arith, k))
    cons_of (c ∷ t) h k = (c, t, refl, (and_parts (is_digit c) (all is_digit t) h).0)

-- 10 to a power.
abbrev pub tens : ℕ → ℕ
tens zero = 1
tens (suc k) = 10 * tens k

tens_pos : (k : ℕ) → 0 < tens k
tens_pos zero = omega arith
tens_pos (suc k) = omega (arith, tens_pos k)

pub length-decimal_le : (k rounds n : ℕ) → n < tens (suc k) → length (decimal rounds n) ≤ suc k
unfolding decimal
length-decimal_le k zero n h = omega arith
length-decimal_le zero (suc rounds) n h =
    if_elim (λ xs. length xs ≤ 1) (ltb n 10) ((48 + n) ∷ [])
      (decimal rounds (n / 10) ++ (48 + n % 10) ∷ []) (λ i. omega arith)
      (λ i. absurd (ground (arith, h, i)))
length-decimal_le (suc k) (suc rounds) n h =
    if_elim (λ xs. length xs ≤ suc (suc k)) (ltb n 10) ((48 + n) ∷ [])
      (decimal rounds (n / 10) ++ (48 + n % 10) ∷ []) (λ i. omega arith)
      (λ i. omega (
        arith,
        length-append (decimal rounds (n / 10)) ((48 + n % 10) ∷ []),
        length-decimal_le k rounds (n / 10) (omega (arith, h)),
      ))

pub length-decimal_gt : (k rounds n : ℕ) → tens k ≤ n → n < rounds → k < length (decimal rounds n)
unfolding decimal
length-decimal_gt k zero n h r = absurd (omega (arith, r))
length-decimal_gt zero (suc rounds) n h r = length-decimal rounds n
length-decimal_gt (suc k) (suc rounds) n h r =
    if_elim (λ xs. suc k < length xs) (ltb n 10) ((48 + n) ∷ [])
      (decimal rounds (n / 10) ++ (48 + n % 10) ∷ [])
      (λ i. absurd (omega (arith, h, tens_pos k, ltb→lt n 10 i)))
      (λ i. omega (
        arith,
        length-append (decimal rounds (n / 10)) ((48 + n % 10) ∷ []),
        length-decimal_gt k rounds (n / 10) (omega (arith, h)) (ground (arith, r, i)),
      ))

digits-replicate : (n : ℕ) → all is_digit (replicate n b'0') ≡ true
digits-replicate zero = refl
digits-replicate (suc n) = digits-replicate n

-- A number padded with zeros has the width, when it is not too great, and is made of digits.
pub fill_left-digits :
    (k n : ℕ)
    → n < tens (suc k)
    → (length (fill_left b'0' (suc k) (show_nat n)) ≡ suc k)
      × (all is_digit (fill_left b'0' (suc k) (show_nat n)) ≡ true)
fill_left-digits k n h =
    let zeros = replicate (suc k - length (show_nat n)) b'0' in
    (
      omega (
        arith,
        length-append zeros (show_nat n),
        length-replicate {A = ℕ} (suc k - length (show_nat n)) b'0',
        length-decimal_le k (suc n) n h,
      ),
      all-append is_digit zeros (show_nat n) (digits-replicate (suc k - length (show_nat n)))
          (digits-decimal (suc n) n),
    )
