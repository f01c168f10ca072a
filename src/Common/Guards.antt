-- ===== src/Common/Guards.antt =====
-- Actions that are possible only under a condition, and sequences of them.
use mathlib.Core.Path.{◌≡◌, refl, subst}
use mathlib.Core.Bool.{Bool, true, false, ◌&&◌}
use mathlib.Core.Option.{Option, none, some}
use rdispatch.Common.Tests.{if◌then◌else◌}

module _ {ℓ} {A : Type ℓ} where
  -- `a`, if it is possible.
  abbrev pub when : Bool → A → Option A
  when true a = some a
  when false a = none

  pub when-some {κ} :
      (P : A → Type κ) (b : Bool) (u t : A) → (b ≡ true → P u) → when b u ≡ some t → P t
  when-some P true u t h e = let same : u ≡ t = cc in subst P same (h refl)
  when-some P false u t h e = absurd (let clash : none ≡ some t = e in cc)

  pub when-true : (b : Bool) (a : A) → b ≡ true → when b a ≡ some a
  when-true b a e = rw e refl

  unfoldable pub and_then : Option A → (A → Option A) → Option A
  and_then none f = none
  and_then (some a) f = f a

  pub and_then-some :
      (o : Option A) (f : A → Option A) (t : A)
      → and_then o f ≡ some t
      → (u : A) × (o ≡ some u) × (f u ≡ some t)
  unfolding and_then
  and_then-some none f t e = absurd (let clash : none ≡ some t = e in cc)
  and_then-some (some u) f t e = (u, refl, e)

  pub if-true : (b : Bool) (x y : A) → b ≡ true → (if b then x else y) ≡ x
  if-true true x y e = refl
  if-true false x y e = absurd cc

pub and_true : (a b : Bool) → a && b ≡ true → (a ≡ true) × (b ≡ true)
and_true true b e = (refl, e)
and_true false b e = absurd cc
