-- ===== src/Common/Resources.antt =====
-- Connections and pools as resources: which are opened and closed, in order.
use Prim.Native.Nat.{ℕ, suc, ◌+◌}
use mathlib.Core.Path.{◌≡◌}
use mathlib.Core.List.{List, [], ◌∷◌, ◌++◌}
use native.Mathlib.Omega.{arith}
use rdispatch.Common.Json.{Result, ok, err}

pub data Effect (R : Type 0) : Type 0 where
  opened : R → Effect R
  closed : R → Effect R

module _ {R : Type 0} where
  abbrev pub opens : List (Effect R) → ℕ
  opens [] = 0
  opens (opened r ∷ es) = suc (opens es)
  opens (closed r ∷ es) = opens es

  abbrev pub closes : List (Effect R) → ℕ
  closes [] = 0
  closes (opened r ∷ es) = closes es
  closes (closed r ∷ es) = suc (closes es)

  pub opens-append : (es fs : List (Effect R)) → opens (es ++ fs) ≡ opens es + opens fs
  opens-append [] fs = omega arith
  opens-append (opened r ∷ es) fs = omega (arith, opens-append es fs)
  opens-append (closed r ∷ es) fs = opens-append es fs

  pub closes-append : (es fs : List (Effect R)) → closes (es ++ fs) ≡ closes es + closes fs
  closes-append [] fs = omega arith
  closes-append (opened r ∷ es) fs = closes-append es fs
  closes-append (closed r ∷ es) fs = omega (arith, closes-append es fs)

  -- A call that returns a resource leaves that one open, and a call that fails leaves none.
  abbrev pub Settled : {A : Type 0} → List (Effect R) → Result A → Type 0
  Settled es (ok a) = opens es ≡ suc (closes es)
  Settled es (err e) = opens es ≡ closes es
