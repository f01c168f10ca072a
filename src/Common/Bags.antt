-- ===== src/Common/Bags.antt =====
-- Lists as bags: moving parts of a concatenation.
use mathlib.Core.List.{List, ◌∷◌, ◌++◌, Perm, append_assoc, perm_append_comm, perm_middle}
use mathlib.Core.List.Perm

module _ {ℓ} {A : Type ℓ} where
  pub reorder : (xs ys a : List A) → Perm (xs ++ (ys ++ a)) ((ys ++ xs) ++ a)
  reorder xs ys a = rw (← append_assoc xs ys a) (Perm.append_right a (perm_append_comm xs ys))

  -- An element of the second list goes to the front.
  pub past :
      (xs : List A) {ys zs : List A} {p : A} → Perm ys (p ∷ zs) → Perm (xs ++ ys) (p ∷ (xs ++ zs))
  past xs h = Perm.trans (Perm.append_left xs h) (perm_middle xs _)

  -- Two lists change places before a third.
  pub exchange_lists : (xs ys zs : List A) → Perm (xs ++ (ys ++ zs)) (ys ++ (xs ++ zs))
  exchange_lists xs ys zs =
      rw (← append_assoc xs ys zs, ← append_assoc ys xs zs)
        (Perm.append_right zs (perm_append_comm xs ys))

  -- Lists that have the same element in front of the same rest.
  pub meet : {xs ys zs : List A} → Perm xs zs → Perm ys zs → Perm xs ys
  meet h k = Perm.trans h (Perm.symm k)
