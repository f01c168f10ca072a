-- ===== src/Examples/Quarters.antt =====
-- Numbers in quarters, as the floating-point numbers of the runs: exact where the runs compute.
use native.Mathlib.Nat.{mul-le-mul_left}
use rdispatch.Common.{ℕ, ◌+◌, ◌*◌, ◌/◌, ◌≤◌, refl, ap, arith, ltb}
use rdispatch.Common.Int.{ℤ, pos, negsuc}
use rdispatch.Common.Float.{Float64, IsIeee}

abbrev of_int : ℤ → ℕ
of_int (pos n) = 4 * n
of_int (negsuc n) = 0

abbrev pub quarters : Float64
quarters = record {
  F = ℕ;
  of_int = of_int;
  to_int = λ x. pos (x / 4);
  add = λ x y. x + y;
  mul = λ x y. x * y / 4;
  div = λ x y. 4 * x / y;
  is_positive = λ x. ltb 0 x;
  zero = 0;
  half = 2;
  three_quarters = 3;
  one = 4;
  two = 8;
}

unfoldable pub quarters-IsIeee : IsIeee quarters
quarters-IsIeee = record {
  le = λ x y. x ≤ y;
  le_trans = λ x y z h k. omega arith;
  add_mono = λ y z h. omega arith;
  mul_mono = λ d y z b p h t. omega (arith, mul-le-mul_left (4 * d) h);
  half_mono = λ y z h. omega arith;
  to_int_mono = λ x y p h t. omega arith;
  least_pos = omega arith;
  most_le = omega arith;
  product_pos = λ d h. omega arith;
  product_le = λ d h. omega arith;
  half_zero = refl;
  half_one = refl;
  add_zero = refl;
  lower_quarter = λ d h. ap pos (omega arith);
  upper_quarter = λ d h. ap pos (omega arith);
  doubled = λ d h. ap pos (omega arith);
}
