-- ===== src/Base/Words.antt =====
-- `std::size_t` arithmetic: 64 bits, wrapping.
use Prim.Native.Nat.{ℕ, ◌+◌, ◌-◌, ◌%◌, ◌^◌}
use mathlib.Core.Path.{◌≡◌}
use native.Mathlib.Omega.{arith}

abbrev pub size_mod : ℕ
size_mod = 2 ^ 64

abbrev pub add_size : ℕ → ℕ → ℕ
add_size a b = (a + b) % size_mod

abbrev pub sub_size : ℕ → ℕ → ℕ
sub_size a b = (a + (size_mod - b % size_mod)) % size_mod

-- Taking away what was added gives the rest back, whatever wrapped on the way.
pub sub_size-add_cancel : (a b : ℕ) → sub_size ((a + b) % size_mod) a ≡ b % size_mod
sub_size-add_cancel a b = omega arith
