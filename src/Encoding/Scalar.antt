-- ===== src/Encoding/Scalar.antt =====
-- Code points: which numbers are one, and what that says of their size.
use Prim.Native.Nat.{Ordering, compare}
use Prim.Native.Char.{IsLt, IsScalar}
use rdispatch.Common.{
  ℕ, ◌≡◌, refl, ap, true, false, Option, none, some, ◌<◌, ◌⊎◌, inl, inr, ltb, arith,
}

-- What `IsScalar` says of its three comparisons.
abbrev Both : Ordering → Ordering → Type 0
Both Ordering.lt o = IsLt o
Both Ordering.eq o = ⊥
Both Ordering.gt o = ⊥

abbrev Scalar : Ordering → Ordering → Ordering → Type 0
Scalar Ordering.lt o p = Unit
Scalar Ordering.eq o p = Both o p
Scalar Ordering.gt o p = Both o p

abbrev pick_both : (o p : Ordering) → Option (Both o p)
pick_both Ordering.lt Ordering.lt = some tt
pick_both Ordering.lt p = none
pick_both o p = none

abbrev pick : (o p q : Ordering) → Option (Scalar o p q)
pick Ordering.lt p q = some tt
pick Ordering.eq p q = pick_both p q
pick Ordering.gt p q = pick_both p q

pick_both_lem : (o p : Ordering) (h : Both o p) → pick_both o p ≡ some h
pick_both_lem Ordering.lt Ordering.lt h = refl
pick_both_lem Ordering.lt Ordering.eq h = absurd h
pick_both_lem Ordering.lt Ordering.gt h = absurd h
pick_both_lem Ordering.eq p h = absurd h
pick_both_lem Ordering.gt p h = absurd h

pick_lem : (o p q : Ordering) (h : Scalar o p q) → pick o p q ≡ some h
pick_lem Ordering.lt p q h = refl
pick_lem Ordering.eq p q h = pick_both_lem p q h
pick_lem Ordering.gt p q h = pick_both_lem p q h

-- The number as a code point, if it is one.
unfoldable pub as_scalar : (n : ℕ) → Option (IsScalar n)
as_scalar n = pick (compare n 55296) (compare 57343 n) (compare n 1114112)

pub as_scalar_lem : (n : ℕ) (h : IsScalar n) → as_scalar n ≡ some h
unfolding as_scalar
as_scalar_lem n h = pick_lem (compare n 55296) (compare 57343 n) (compare n 1114112) h

-- Below the surrogates, or above them and below the end.
abbrev pub InRange : ℕ → Type 0
InRange n = (n < 55296) ⊎ ((57343 < n) × (n < 1114112))

below : (m n : ℕ) → compare m n ≡ Ordering.lt → m < n
below m n e =
    let test : ltb m n ≡ true = ap (λ o. elim o [ Ordering.lt ↦ true | _ ↦ false ]) e in
    ground arith

both_below :
    (n : ℕ) (o p : Ordering)
    → compare 57343 n ≡ o
    → compare n 1114112 ≡ p
    → Both o p
    → (57343 < n) × (n < 1114112)
both_below n Ordering.lt Ordering.lt e f h = (below 57343 n e, below n 1114112 f)
both_below n Ordering.lt Ordering.eq e f h = absurd h
both_below n Ordering.lt Ordering.gt e f h = absurd h
both_below n Ordering.eq p e f h = absurd h
both_below n Ordering.gt p e f h = absurd h

range_of :
    (n : ℕ) (o : Ordering)
    → compare n 55296 ≡ o
    → Scalar o (compare 57343 n) (compare n 1114112)
    → InRange n
range_of n Ordering.lt e h = inl (below n 55296 e)
range_of n Ordering.eq e h = inr (both_below n _ _ refl refl h)
range_of n Ordering.gt e h = inr (both_below n _ _ refl refl h)

pub InRange-of_IsScalar : (n : ℕ) → IsScalar n → InRange n
InRange-of_IsScalar n h = range_of n (compare n 55296) refl h
