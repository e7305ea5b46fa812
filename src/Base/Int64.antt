-- ===== src/Base/Int64.antt =====
-- Go's int64 as its bit pattern, a number below 2 ^ 64: addition wraps, and comparison reads the
-- sign bit.
use Prim.Native.Nat.{ℕ, ◌+◌, ◌%◌, ◌^◌, ◌<◌}
use mathlib.Core.Path.{◌≡◌}
use mathlib.Core.Bool.{Bool}
use native.Mathlib.Omega.{arith}
use stowage.Base.Tests.{ltb}

abbrev pub modulus : ℕ
modulus = 2 ^ 64

abbrev pub sign_bit : ℕ
sign_bit = 2 ^ 63

unfoldable pub add64 : ℕ → ℕ → ℕ
add64 a b = (a + b) % modulus

-- a < b, signed: the pattern is moved by half the range, which puts negative numbers below.
unfoldable pub lt64 : ℕ → ℕ → Bool
lt64 a b = ltb ((a + sign_bit) % modulus) ((b + sign_bit) % modulus)

pub lt64-small : (a b : ℕ) → a < sign_bit → b < sign_bit → lt64 a b ≡ ltb a b
unfolding lt64
lt64-small a b ha hb = ground arith

pub add64-small : (a b : ℕ) → a + b < sign_bit → add64 a b ≡ a + b
unfolding add64
add64-small a b h = omega arith
