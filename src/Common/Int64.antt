-- ===== src/Common/Int64.antt =====
-- Go's int64 as a bit pattern: a number below 2 ^ 64, with its sum and the integer that it stands for.
use Prim.Native.Nat.{ℕ, ◌+◌, ◌-◌, ◌/◌, ◌%◌}
use mathlib.Core.Bool.{Bool}
use rdispatch.Common.Tests.{ltb, if◌then◌else◌}
use rdispatch.Common.Int.{ℤ, pos, negsuc, ltb_ℤ}

abbrev pub modulus : ℕ
modulus = 18446744073709551616

abbrev pub sign_bit : ℕ
sign_bit = 9223372036854775808

unfoldable pub add64 : ℕ → ℕ → ℕ
add64 a b = (a + b) % modulus

unfoldable pub signed : ℕ → ℤ
signed a = if ltb a sign_bit then pos a else negsuc (modulus - 1 - a)

unfoldable pub pattern64 : ℤ → ℕ
pattern64 (pos n) = n % modulus
pattern64 (negsuc n) = modulus - 1 - n % modulus

-- `a > 0`.
unfoldable pub is_positive : ℕ → Bool
unfolding signed
is_positive a = ltb_ℤ (pos 0) (signed a)

-- `d.Milliseconds()`: the quotient by 10 ^ 6, rounded towards zero.
unfoldable pub milliseconds : ℤ → ℕ
unfolding pattern64
milliseconds (pos n) = pattern64 (pos (n / 1000000))
milliseconds (negsuc n) =
    let q = (n + 1) / 1000000 in if ltb 0 q then pattern64 (negsuc (q - 1)) else 0
