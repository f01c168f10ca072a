-- ===== src/System/Bags.antt =====
-- How payloads move between the parts of the system, for lists as bags.
use mathlib.Core.List.{append_assoc, perm_middle}
use mathlib.Core.List.Perm
use rdispatch.Common.{◌≡◌, refl, ap, List, [], ◌∷◌, ◌++◌, Perm, past, exchange_lists, meet}
use rdispatch.Priority.Item.{Item}
use rdispatch.System.Steps.{payloads}

pub payloads-append : (xs ys : List Item) → payloads (xs ++ ys) ≡ payloads xs ++ payloads ys
payloads-append [] ys = refl
payloads-append (x ∷ xs) ys = ap (◌∷◌ x.payload) (payloads-append xs ys)

pub payloads-perm : {xs ys : List Item} → Perm xs ys → Perm (payloads xs) (payloads ys)
payloads-perm h = Perm.map (λ x. x.payload) h

module _ {A : Type 0} where
  -- The first group grows on both sides.
  pub grown_bag :
      (new c r q t q' : List A)
      → Perm (c ++ r) (q ++ t)
      → Perm q' (new ++ q)
      → Perm ((new ++ c) ++ r) (q' ++ t)
  grown_bag new c r q t q' b h = rw (append_assoc new c r) (
      Perm.trans (Perm.append_left new b)
        (rw (← append_assoc new q t) (Perm.append_right t (Perm.symm h))))

  -- An element goes from the first group to the second.
  pub forwarded_bag :
      (x q p u : List A) {q' p' : List A} {e : A}
      → Perm x (q ++ (p ++ u))
      → Perm q (e ∷ q')
      → Perm p' (e ∷ p)
      → Perm x (q' ++ (p' ++ u))
  forwarded_bag x q p u {q' = q'} b h k =
      Perm.trans b (meet (Perm.append_right (p ++ u) h) (past q' (Perm.append_right u k)))

  -- A copy joins the second group, and the left side.
  pub copied_bag :
      (y r q p u : List A) {q' p' : List A} {e : A}
      → Perm (y ++ r) (q ++ (p ++ u))
      → Perm q' q
      → Perm p' (e ∷ p)
      → Perm (y ++ (e ∷ r)) (q' ++ (p' ++ u))
  copied_bag y r q p u {q' = q'} {e = e} b h k =
      meet (Perm.trans (perm_middle y r) (Perm.cons e b))
        (Perm.trans (past q' (Perm.append_right u k)) (Perm.cons e (Perm.append_right (p ++ u) h)))

  -- An element goes from the second group to the third.
  pub acked_bag :
      (x q p a t : List A) {p' rest : List A} {e : A}
      → Perm x (q ++ (p ++ (a ++ t)))
      → Perm p (e ∷ rest)
      → Perm p' rest
      → Perm x (q ++ (p' ++ ((e ∷ a) ++ t)))
  acked_bag x q p a t {rest = rest} b h k = Perm.trans b (
      meet (past q (Perm.append_right (a ++ t) h))
        (past q (Perm.trans (Perm.append_right _ k) (perm_middle rest (a ++ t)))))

  -- An element goes from the second group to the fourth.
  pub expired_bag :
      (x q p a l t : List A) {p' rest : List A} {e : A}
      → Perm x (q ++ (p ++ (a ++ (l ++ t))))
      → Perm p (e ∷ rest)
      → Perm p' rest
      → Perm x (q ++ (p' ++ (a ++ ((e ∷ l) ++ t))))
  expired_bag x q p a l t {rest = rest} b h k = Perm.trans b (
      meet (past q (Perm.append_right (a ++ (l ++ t)) h))
        (past q (Perm.trans (Perm.append_right _ k) (past rest (perm_middle a (l ++ t))))))

  -- The first group joins the last.
  pub stranded_bag :
      (x q p a l t : List A)
      → Perm x (q ++ (p ++ (a ++ (l ++ t))))
      → Perm x (p ++ (a ++ (l ++ (q ++ t))))
  stranded_bag x q p a l t b = Perm.trans b (
      Perm.trans (exchange_lists q p (a ++ (l ++ t))) (
        Perm.append_left p
          (Perm.trans (exchange_lists q a (l ++ t)) (Perm.append_left a (exchange_lists q l t)))))
