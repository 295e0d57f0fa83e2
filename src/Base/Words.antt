-- ===== src/Base/Words.antt =====
-- Machine words: unsigned arithmetic wraps; and signed integers.
use Prim.Native.Nat.{ℕ, zero, suc, ◌+◌, ◌-◌, ◌%◌, ◌^◌, ◌≤◌, ◌<◌}
use mathlib.Core.Path.{◌≡◌}
use mathlib.Core.Bool.{Bool, false}
use lustre_simulator.Base.Tests.{◌==◌}
use native.Mathlib.Omega.{arith}

-- `uint64_t`, which `obd_off`, `obd_count` and `unsigned long` are.
unfoldable pub u64 : ℕ → ℕ
u64 n = n % 2 ^ 64

unfoldable pub sub_u64 : ℕ → ℕ → ℕ
unfolding u64
sub_u64 a b = u64 (a + 2 ^ 64 - u64 b)

unfoldable pub u64_id : (n : ℕ) → n < 2 ^ 64 → u64 n ≡ n
unfolding u64
u64_id n h = omega arith

pub sub_u64_lem : (a b : ℕ) → b ≤ a → a < 2 ^ 64 → sub_u64 a b ≡ a - b
unfolding sub_u64
sub_u64_lem a b h k = omega arith

pub u64-lt : (n : ℕ) → u64 n < 2 ^ 64
unfolding u64
u64-lt n = omega arith

-- `int`, away from the ends of its 32 bits.
pub data ℤ : Type 0 where
  pos negsuc : ℕ → ℤ

abbrev pub pred : ℤ → ℤ
pred (pos zero) = negsuc zero
pred (pos (suc n)) = pos n
pred (negsuc n) = negsuc (suc n)

abbrev pub is_zero : ℤ → Bool
is_zero (pos n) = n == 0
is_zero (negsuc n) = false
