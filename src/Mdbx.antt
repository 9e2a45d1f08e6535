-- ===== src/Mdbx.antt =====
-- detail/MdbxByteIO.hpp: the byte writer and reader of MdbxLogger, and the values that it stores.
-- The writer's state is the bytes written so far; the reader's state is the bytes from `m_cur` to
-- `m_end`. An `int64_t` is copied bit by bit. The database itself (mdbx) is not modelled.
pub mod Numbers
pub mod Values
pub mod Keys
pub mod Sequence
mod Tests
use log_it_cpp.Base.{
  ℕ, ◌+◌, ◌-◌, ◌*◌, ◌/◌, ◌%◌, ◌^◌, ◌≡◌, Bool, true, false, Option, none, some, List, [], ◌∷◌, ◌++◌,
  map, ltb, leb, ◌==◌, length, take, drop, if◌then◌else◌,
}
use log_it_cpp.Base.Ints.{ℤ, pos, negsuc}
use log_it_cpp.Record.{Bytes}

-- What the code throws: std::length_error of the writer, std::runtime_error of the reader, and the
-- MdbxReadException of the values.
pub data Failure : Type 0 where
  too_large null_value corrupted trailing_bytes unsupported_version decode_error : Failure

pub data Result {ℓ} (A : Type ℓ) : Type ℓ where
  ok : A → Result A
  throws : Failure → Result A

infixl 5 ◌>>=◌ ◌>>◌
abbrev pub ◌>>=◌ {ℓ κ} : {A : Type ℓ} {B : Type κ} → Result A → (A → Result B) → Result B
ok x >>= k = k x
throws e >>= k = throws e

abbrev pub ◌>>◌ {ℓ} : {B : Type ℓ} → Result (Unit {0}) → Result B → Result B
m >> k = m >>= λ _. k

-- `(value >> shift) & 0xFF` for each shift.
abbrev pub be_bytes : List ℕ → ℕ → Bytes
be_bytes shifts value = map (λ shift. value / 2 ^ shift % 256) shifts

pub u32_bytes : ℕ → Bytes
u32_bytes = be_bytes (24 ∷ 16 ∷ 8 ∷ 0 ∷ [])

pub u64_bytes : ℕ → Bytes
u64_bytes = be_bytes (56 ∷ 48 ∷ 40 ∷ 32 ∷ 24 ∷ 16 ∷ 8 ∷ 0 ∷ [])

-- The bits of an `int64_t` as a `uint64_t`, and back.
pub i64_bits : ℤ → ℕ
i64_bits (pos n) = n % 2 ^ 64
i64_bits (negsuc n) = 2 ^ 64 - 1 - n % 2 ^ 64

pub i64_of_bits : ℕ → ℤ
i64_of_bits bits = if ltb bits (2 ^ 63) then pos bits else negsuc (2 ^ 64 - 1 - bits)

pub write_u8 : Bytes → ℕ → Bytes
write_u8 out value = out ++ value ∷ []

pub write_u32 : Bytes → ℕ → Bytes
write_u32 out value = out ++ u32_bytes value

pub write_u64 : Bytes → ℕ → Bytes
write_u64 out value = out ++ u64_bytes value

pub write_i64 : Bytes → ℤ → Bytes
write_i64 out value = write_u64 out (i64_bits value)

pub write_string : Bytes → Bytes → Result Bytes
write_string out value =
    if ltb (2 ^ 32 - 1) (length value)
    then throws too_large
    else ok (write_u32 out (length value) ++ value)

-- The constructor: a null pointer is `none`.
pub open_reader : Option Bytes → ℕ → Result Bytes
open_reader none size = if size == 0 then ok [] else throws null_value
open_reader (some data_) size = ok (take size data_)

-- `value = (value << 8) | byte` over the bytes, in a word of w bits.
pub fold_bytes : ℕ → ℕ → Bytes → ℕ
fold_bytes w value [] = value
fold_bytes w value (b ∷ bs) = fold_bytes w (value * 256 % 2 ^ w + b) bs

pub require : ℕ → Bytes → Result Bytes
require size cur = if ltb (length cur) size then throws corrupted else ok cur

pub read_u8 : Bytes → Result (ℕ × Bytes)
read_u8 [] = throws corrupted
read_u8 (b ∷ cur) = ok (b, cur)

pub read_u32 : Bytes → Result (ℕ × Bytes)
read_u32 cur = do c ← require 4 cur; ok (fold_bytes 32 0 (take 4 c), drop 4 c)

pub read_u64 : Bytes → Result (ℕ × Bytes)
read_u64 cur = do c ← require 8 cur; ok (fold_bytes 64 0 (take 8 c), drop 8 c)

pub read_i64 : Bytes → Result (ℤ × Bytes)
read_i64 cur = do (bits, cur) ← read_u64 cur; ok (i64_of_bits bits, cur)

pub read_string : Bytes → Result (Bytes × Bytes)
read_string cur = do
  (size, cur) ← read_u32 cur
  cur ← require size cur
  ok (take size cur, drop size cur)

pub finish : Bytes → Result (Unit {0})
finish [] = ok tt
finish (b ∷ cur) = throws trailing_bytes
