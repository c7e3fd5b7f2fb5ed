-- ===== src/Base/GoInt.antt =====
-- Go's `int`: 64 bits in two's complement, as the native number of the bit pattern.
use Prim.Native.Nat.{ℕ, ◌+◌, ◌-◌, ◌%◌, ◌^◌, ◌<◌}
use mathlib.Core.Path.{◌≡◌}
use mathlib.Core.Bool.{Bool, ◌&&◌}
use native.Mathlib.Omega.{arith}
use kata_operator.Base.Tests.{ltb}

-- `x++`
abbrev pub inc : ℕ → ℕ
inc x = (x + 1) % 2 ^ 64

-- `x--`
abbrev pub dec : ℕ → ℕ
dec x = (x + (2 ^ 64 - 1)) % 2 ^ 64

-- the literal `-1`
abbrev pub minus_one : ℕ
minus_one = 2 ^ 64 - 1

-- `int(n)` of a length
abbrev pub of_len : ℕ → ℕ
of_len n = n % 2 ^ 64

-- `x > 0`
abbrev pub is_positive : ℕ → Bool
is_positive x = ltb 0 x && ltb x (2 ^ 63)

-- `x > 0` at Go's `int32`
abbrev pub is_positive32 : ℕ → Bool
is_positive32 x = ltb 0 x && ltb x (2 ^ 31)

pub inc-of_len : (n : ℕ) → inc (of_len n) ≡ of_len (n + 1)
inc-of_len n = omega arith

pub dec-inc : (x : ℕ) → x < 2 ^ 64 → dec (inc x) ≡ x
dec-inc x h = omega arith
