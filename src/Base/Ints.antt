-- ===== src/Base/Ints.antt =====
-- Signed integers over the native numbers, and the conversions of the machine words of x86-64.
use Prim.Native.Nat.{ℕ, ◌-◌, ◌%◌, ◌^◌, ◌<◌}
use mathlib.Core.Path.{◌≡◌}
use mathlib.Core.Bool.{Bool, false}
use native.Mathlib.Omega.{arith}
use ioprocess.Base.Tests.{ltb, ◌==◌, if◌then◌else◌}

-- `negsuc n` is -(n + 1).
pub data ℤ : Type 0 where
  pos : ℕ → ℤ
  negsuc : ℕ → ℤ

-- A `uint64_t` stored in a `long`.
unfoldable pub long_of_u64 : ℕ → ℤ
long_of_u64 n = let w = n % 2 ^ 64 in if ltb w (2 ^ 63) then pos w else negsuc (2 ^ 64 - 1 - w)

-- The low 32 bits of an integer: a `long` passed as a `mode_t` or an `unsigned int`, and the bit
-- pattern of one passed as an `int`.
unfoldable pub u32 : ℤ → ℕ
u32 (pos n) = n % 2 ^ 32
u32 (negsuc n) = 2 ^ 32 - 1 - n % 2 ^ 32

-- The low 64 bits, the pattern of a `long`.
unfoldable pub u64 : ℤ → ℕ
u64 (pos n) = n % 2 ^ 64
u64 (negsuc n) = 2 ^ 64 - 1 - n % 2 ^ 64

-- The test `if (x)` on an integer.
abbrev pub is_zero : ℤ → Bool
is_zero (pos n) = n == 0
is_zero (negsuc n) = false

-- `x > 0`
abbrev pub is_positive : ℤ → Bool
is_positive (pos n) = ltb 0 n
is_positive (negsuc n) = false

-- A `long` survives the way through its 64-bit pattern.
pub long_of_u64-u64 : (n : ℕ) → n < 2 ^ 63 → long_of_u64 n ≡ pos n
unfolding long_of_u64
long_of_u64-u64 n h = ground arith
