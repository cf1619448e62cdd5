-- ===== src/Base/Words.antt =====
-- Machine words of 64 bits as numbers, with the wrap written out. An `ssize_t` or `int64_t` is its
-- bit pattern, two's complement.
use Prim.Native.Nat.{ℕ, ◌+◌, ◌-◌, ◌%◌, ◌^◌}
use mathlib.Core.Bool.{Bool}
use shuttlesock.Base.Tests.{ltb}

-- a + b
abbrev pub add64 : ℕ → ℕ → ℕ
add64 a b = (a + b) % 2 ^ 64

-- a - b
abbrev pub sub64 : ℕ → ℕ → ℕ
sub64 a b = (a + 2 ^ 64 - b) % 2 ^ 64

-- a < b, both signed
abbrev pub slt64 : ℕ → ℕ → Bool
slt64 a b = ltb ((a + 2 ^ 63) % 2 ^ 64) ((b + 2 ^ 63) % 2 ^ 64)

-- (p + 7) & ~7, with `sizeof(void *)` 8
abbrev pub align8 : ℕ → ℕ
align8 p = add64 p 7 - add64 p 7 % 8
