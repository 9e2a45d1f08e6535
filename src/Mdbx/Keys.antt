-- ===== src/Mdbx/Keys.antt =====
-- detail/MdbxKeyUtils.hpp: the keys of the record table. `static_cast<uint64_t>(timestamp) ^ 2^63`
-- flips the top bit of 64, which is adding 2^63 modulo 2^64. The database orders keys of one length
-- by their bytes, which `bytes_ltb` writes out.
pub mod Order
use log_it_cpp.Base.{
  ℕ, ◌+◌, ◌*◌, ◌/◌, ◌%◌, ◌^◌, ◌≡◌, Bool, true, false, ◌&&◌, ◌||◌, List, [], ◌∷◌, ◌++◌, ltb, ◌==◌,
  replicate, set, length,
}
use log_it_cpp.Base.Ints.{ℤ}
use log_it_cpp.Record.{Bytes}
use log_it_cpp.Mdbx.{i64_bits}

-- The loops of mdbx_write_record_key_be and mdbx_write_record_sequence_be.
pub write_be : Bytes → List ℕ → ℕ → ℕ → Bytes
write_be key [] value offset = key
write_be key (shift ∷ shifts) value offset =
    write_be (set key offset (value / 2 ^ shift % 256)) shifts value (offset + 1)

pub write_record_key_be : Bytes → ℕ → ℕ → Bytes
write_record_key_be key value offset =
    write_be key (56 ∷ 48 ∷ 40 ∷ 32 ∷ 24 ∷ 16 ∷ 8 ∷ 0 ∷ []) value offset

pub write_record_sequence_be : Bytes → ℕ → ℕ → Bytes
write_record_sequence_be key value offset = write_be key (24 ∷ 16 ∷ 8 ∷ 0 ∷ []) value offset

pub sortable_ts : ℤ → ℕ
sortable_ts timestamp_ms = (i64_bits timestamp_ms + 2 ^ 63) % 2 ^ 64

pub make_mdbx_record_key : ℤ → ℕ → Bytes
make_mdbx_record_key timestamp_ms sequence =
    write_record_sequence_be (write_record_key_be (replicate 12 0) (sortable_ts timestamp_ms) 0)
      sequence 8

-- The order of the database: byte by byte, a prefix first.
pub bytes_ltb : Bytes → Bytes → Bool
bytes_ltb xs [] = false
bytes_ltb [] (y ∷ ys) = true
bytes_ltb (x ∷ xs) (y ∷ ys) = ltb x y || (x == y && bytes_ltb xs ys)
