-- ===== src/Mdbx/Numbers.antt =====
-- MdbxByteIO.hpp: what the reader makes of the writer's output.
use log_it_cpp.Base.{
  ℕ, ◌^◌, ◌≡◌, ◌<◌, ◌≤◌, ◌++◌, length, arith, length-append, take-append, drop-append,
}
use log_it_cpp.Base.Ints.{ℤ, pos, negsuc}
use log_it_cpp.Record.{Bytes}
use log_it_cpp.Mdbx.{
  ok, u32_bytes, u64_bytes, i64_bits, i64_of_bits, fold_bytes, require, read_u32, read_u64,
  read_i64, read_string,
}

u32_fold : (v : ℕ) → v < 2 ^ 32 → fold_bytes 32 0 (u32_bytes v) ≡ v
unfolding fold_bytes u32_bytes
u32_fold v h = omega arith

u64_fold : (v : ℕ) → v < 2 ^ 64 → fold_bytes 64 0 (u64_bytes v) ≡ v
unfolding fold_bytes u64_bytes
u64_fold v h = omega arith

require-enough : (n : ℕ) (c : Bytes) → n ≤ length c → require n c ≡ ok c
unfolding require
require-enough n c h = ground arith

pub read-u32_bytes :
    (v : ℕ) (rest : Bytes) → v < 2 ^ 32 → read_u32 (u32_bytes v ++ rest) ≡ ok (v, rest)
unfolding read_u32 u32_bytes
read-u32_bytes v rest h = rw (require-enough 4 (u32_bytes v ++ rest) (omega arith), u32_fold v h)

pub read-u64_bytes :
    (v : ℕ) (rest : Bytes) → v < 2 ^ 64 → read_u64 (u64_bytes v ++ rest) ≡ ok (v, rest)
unfolding read_u64 u64_bytes
read-u64_bytes v rest h = rw (require-enough 8 (u64_bytes v ++ rest) (omega arith), u64_fold v h)

-- The values of an `int64_t`.
abbrev pub IsInt64 : ℤ → Type 0
IsInt64 (pos n) = n < 2 ^ 63
IsInt64 (negsuc n) = n < 2 ^ 63

i64_bits-range : (z : ℤ) → i64_bits z < 2 ^ 64
unfolding i64_bits
i64_bits-range (pos n) = omega arith
i64_bits-range (negsuc n) = omega arith

i64_of_bits-i64_bits : (z : ℤ) → IsInt64 z → i64_of_bits (i64_bits z) ≡ z
unfolding i64_bits i64_of_bits
i64_of_bits-i64_bits (pos n) h = ground arith
i64_of_bits-i64_bits (negsuc n) h = ground arith

pub read-i64_bytes :
    (z : ℤ) (rest : Bytes) → IsInt64 z → read_i64 (u64_bytes (i64_bits z) ++ rest) ≡ ok (z, rest)
unfolding read_i64
read-i64_bytes z rest h =
    rw (read-u64_bytes (i64_bits z) rest (i64_bits-range z), i64_of_bits-i64_bits z h)

pub read-string_bytes :
    (t rest : Bytes)
    → length t < 2 ^ 32
    → read_string (u32_bytes (length t) ++ (t ++ rest)) ≡ ok (t, rest)
unfolding read_string
read-string_bytes t rest h = rw (
  read-u32_bytes (length t) (t ++ rest) h,
  require-enough (length t) (t ++ rest) (omega (arith, length-append t rest)),
  take-append t rest,
  drop-append t rest,
)
