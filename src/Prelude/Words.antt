-- ===== src/Prelude/Words.antt =====
-- Go's fixed-width integers. An unsigned word is a number below its modulus. An `int64` is its bit
-- pattern, a number below 2^64: sums wrap, and `<` compares after the shift by 2^63.
use Prim.Native.Nat.{ℕ, ◌+◌, ◌-◌, ◌%◌, ◌^◌}
use mathlib.Core.Bool.{Bool}
use hxstakepool.Prelude.Tests.{ltb}

-- `uint16(x)`.
abbrev pub uint16 : ℕ → ℕ
uint16 x = x % 2 ^ 16

-- `uint32(x)`.
abbrev pub uint32 : ℕ → ℕ
uint32 x = x % 2 ^ 32

-- `int64` addition and subtraction on bit patterns.
unfoldable pub add64 : ℕ → ℕ → ℕ
add64 a b = (a + b) % 2 ^ 64

unfoldable pub sub64 : ℕ → ℕ → ℕ
sub64 a b = (a + 2 ^ 64 - b) % 2 ^ 64

-- `a < b` on `int64`.
unfoldable pub lt64 : ℕ → ℕ → Bool
lt64 a b = ltb ((a + 2 ^ 63) % 2 ^ 64) ((b + 2 ^ 63) % 2 ^ 64)
