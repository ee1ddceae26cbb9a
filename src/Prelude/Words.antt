-- ===== src/Prelude/Words.antt =====
-- `std::size_t`: 64-bit arithmetic that wraps around, and where it does not.
use Prim.Native.Nat.{ℕ, ◌+◌, ◌-◌, ◌%◌, ◌^◌, ◌≤◌, ◌<◌}
use mathlib.Core.Path.{◌≡◌}
use native.Mathlib.Omega.{arith}

abbrev pub size_mod : ℕ
size_mod = 2 ^ 64

-- `std::size_t(-1)`
abbrev pub size_max : ℕ
size_max = 2 ^ 64 - 1

unfoldable pub add64 : ℕ → ℕ → ℕ
add64 a b = (a + b) % size_mod

unfoldable pub sub64 : ℕ → ℕ → ℕ
sub64 a b = (a + size_mod - b) % size_mod

pub add64_exact : (a b : ℕ) → a + b < size_mod → add64 a b ≡ a + b
unfolding add64
add64_exact a b h = omega arith

pub sub64_exact : (a b : ℕ) → b ≤ a → a < size_mod → sub64 a b ≡ a - b
unfolding sub64
sub64_exact a b h k = omega arith
