-- ===== src/Common/Float.antt =====
-- Go's float64, as a parameter: the operations that the program uses, and what IEEE 754 promises of
-- them at the values in play.
use Prim.Native.Nat.{ℕ, ◌*◌, ◌/◌, ◌^◌, ◌<◌}
use mathlib.Core.Path.{◌≡◌}
use mathlib.Core.Bool.{Bool}
use rdispatch.Common.Int.{ℤ, pos, ◌≤ℤ◌}

pub record Float64 : Type 1 where
  pub F : Type 0
  pub of_int : ℤ → F  -- `float64(n)`
  pub to_int : F → ℤ  -- `int64(x)`
  pub add : F → F → F
  pub mul : F → F → F
  pub div : F → F → F
  pub is_positive : F → Bool  -- `x > 0`
  pub zero : F
  pub half : F  -- 0.5
  pub three_quarters : F  -- 0.75
  pub one : F
  pub two : F

-- Rounding keeps order, and is exact where the result has at most 53 bits. `le x y` is `x <= y`, which is
-- false of a NaN. A conversion to an integer truncates where the result is one of int64; of other numbers
-- nothing is said, and neither is of a product that may be infinite times zero.
pub record IsIeee (fl : Float64) : Type 1 where
  pub le : fl.F → fl.F → Type 0
  pub le_trans : (x y z : fl.F) → le x y → le y z → le x z
  pub add_mono :
      (y z : fl.F) → le y z → le (fl.add fl.three_quarters y) (fl.add fl.three_quarters z)
  pub mul_mono :
      (d : ℕ) (y z : fl.F)
      → d < 2 ^ 50
      → le fl.zero y
      → le y z
      → le z fl.two
      → le (fl.mul (fl.of_int (pos d)) y) (fl.mul (fl.of_int (pos d)) z)
  pub half_mono : (y z : fl.F) → le y z → le (fl.mul y fl.half) (fl.mul z fl.half)
  pub to_int_mono :
      (x y : fl.F)
      → le fl.zero x
      → le x y
      → le y (fl.of_int (pos (2 ^ 53)))
      → fl.to_int x ≤ℤ fl.to_int y
  pub least_pos : le fl.zero fl.three_quarters
  pub most_le : le (fl.add fl.three_quarters fl.half) fl.two
  pub product_pos : (d : ℕ) → d < 2 ^ 50 → le fl.zero (fl.mul (fl.of_int (pos d)) fl.three_quarters)
  pub product_le :
      (d : ℕ)
      → d < 2 ^ 50
      → le
          (fl.mul (fl.of_int (pos d)) (fl.add fl.three_quarters fl.half))
          (fl.of_int (pos (2 ^ 53)))
  pub half_zero : fl.mul fl.zero fl.half ≡ fl.zero
  pub half_one : fl.mul fl.one fl.half ≡ fl.half
  pub add_zero : fl.add fl.three_quarters fl.zero ≡ fl.three_quarters
  -- 0.75 d and 1.25 d, truncated
  pub lower_quarter :
      (d : ℕ)
      → d < 2 ^ 50
      → fl.to_int (fl.mul (fl.of_int (pos d)) fl.three_quarters) ≡ pos (3 * d / 4)
  pub upper_quarter :
      (d : ℕ)
      → d < 2 ^ 50
      → fl.to_int (fl.mul (fl.of_int (pos d)) (fl.add fl.three_quarters fl.half)) ≡ pos (5 * d / 4)
  pub doubled : (d : ℕ) → d < 2 ^ 52 → fl.to_int (fl.mul (fl.of_int (pos d)) fl.two) ≡ pos (2 * d)
