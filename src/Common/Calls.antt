-- ===== src/Common/Calls.antt =====
-- How a Go call ends: with a value, or by a run-time panic. `out_of_fuel` is the model's own: the
-- rounds granted to a loop are used up.
use mathlib.Core.Path.{◌≡◌, refl, subst}
use mathlib.Core.Bool.{Bool, true, false}
use mathlib.Core.Option.{Option, none, some}
use Prim.Native.Nat.{ℕ}
use mathlib.Core.List.{List, [], ◌∷◌}
use rdispatch.Common.Tests.{if◌then◌else◌}
use rdispatch.Common.Array.{get_elem?}

pub data Run {ℓ} (A : Type ℓ) : Type ℓ where
  done : A → Run A
  panic : Run A
  out_of_fuel : Run A

infixl 5 ◌>>=◌
abbrev pub ◌>>=◌ {ℓ κ} : {A : Type ℓ} {B : Type κ} → Run A → (A → Run B) → Run B
done a >>= f = f a
panic >>= f = panic
out_of_fuel >>= f = out_of_fuel

abbrev pub or_panic {ℓ} : {A : Type ℓ} → Option A → Run A
or_panic (some a) = done a
or_panic none = panic

-- `xs[i]`: an index out of range panics.
abbrev pub load {ℓ} : {A : Type ℓ} → List A → ℕ → Run A
load xs i = or_panic (get_elem? xs i)

-- The call ends with a value, and `P` holds of it.
pub data Yields {ℓ κ} {A : Type ℓ} (P : A → Type κ) : Run A → Type (ℓ ⊔ κ) where
  yields : {a : A} → P a → Yields P (done a)

module _ {ℓ κ} {A : Type ℓ} {P : A → Type κ} where
  -- The value of a call that ends well, with its property.
  pub Yields-value : {r : Run A} → Yields P r → (a : A) × (r ≡ done a) × P a
  Yields-value (yields p) = (_, refl, p)

  pub Yields-then {ℓ' κ'} :
      {B : Type ℓ'} {Q : B → Type κ'} {r : Run A} {f : A → Run B}
      → Yields P r
      → ((a : A) → P a → Yields Q (f a))
      → Yields Q (r >>= f)
  Yields-then (yields p) next = next _ p

  pub Yields-weaken {κ'} :
      {Q : A → Type κ'} {r : Run A} → Yields P r → ((a : A) → P a → Q a) → Yields Q r
  Yields-weaken (yields p) h = yields (h _ p)

  pub Yields-branch :
      {x y : Run A} (b : Bool)
      → (b ≡ true → Yields P x)
      → (b ≡ false → Yields P y)
      → Yields P (if b then x else y)
  Yields-branch true hx hy = hx refl
  Yields-branch false hx hy = hy refl

  -- What holds of the value that a call yields.
  pub Yields-at : {r : Run A} {a : A} → Yields P r → r ≡ done a → P a
  Yields-at {a = a} (yields {a = b} p) e = let same : b ≡ a = cc in subst P same p

-- `P` holds of every element.
abbrev pub All {ℓ κ} : {A : Type ℓ} → (A → Type κ) → List A → Type κ
All P [] = Unit
All P (x ∷ xs) = P x × All P xs
