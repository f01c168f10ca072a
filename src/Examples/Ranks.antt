-- ===== src/Examples/Ranks.antt =====
-- Lists of items of which no two have the same rank.
use mathlib.Core.HLevel.{hedberg}
use mathlib.Core.List.{not-mem-nil, mem-cons}
use mathlib.Core.Logic.Or
use rdispatch.Common.{
  String, List, [], ◌∷◌, sym, ◌∙◌, str_eq, str_eq_iff, Bool-cases, inl, inr, All, Mem,
}
use rdispatch.Priority.Item.{Item}
use rdispatch.Priority.History.{Outranks}
use rdispatch.Priority.Reference.{RanksDiffer}

text_discrete : Discrete String
text_discrete s t = elim (Bool-cases (str_eq s t)) [
  | inl e ↦ yes ((str_eq_iff s t).0 e)
  | inr e ↦ no (λ same. let both = (str_eq_iff s t).1 same in absurd cc)
]

text_set : IsSet String
text_set = hedberg text_discrete

Item_set : IsSet Item
Item_set = hlevel (text_set)

-- Two items of the same rank.
abbrev pub SameRank : Item → Item → Type 0
SameRank x y = Outranks x y × Outranks y x

abbrev pub Apart : List Item → Type 0
Apart [] = Unit
Apart (x ∷ xs) = All (λ t. ¬ SameRank x t) xs × Apart xs

not_prop : (x t : Item) → IsProp (¬ SameRank x t)
not_prop x t = hlevel

All-not :
    (x : Item) (xs : List Item)
    → All (λ t. ¬ SameRank x t) xs
    → (t : Item) → Mem t xs
    → ¬ SameRank x t
All-not x [] a t m = absurd (not-mem-nil m)
All-not x (y ∷ xs) (n, a) t m =
    let r : ¬ SameRank x t =
      Or.elim (not_prop x t) (mem-cons.0 m) (λ e. rw e n) (All-not x xs a t) in
    r

pub RanksDiffer-of_Apart : (a : List Item) → Apart a → RanksDiffer a
RanksDiffer-of_Apart [] apart x y mx my h k = absurd (not-mem-nil mx)
RanksDiffer-of_Apart (z ∷ a) (n, apart) x y mx my h k =
    let xy : SameRank x y = (h, k) in
    let yx : SameRank y x = (k, h) in
    Or.elim (Item_set x y) (mem-cons.0 mx)
      (λ ex.
        Or.elim (Item_set x y) (mem-cons.0 my) (λ ey. ex ∙ sym ey)
          (λ my'. absurd (All-not z a n y my' (rw ex at xy))))
      (λ mx'.
        Or.elim (Item_set x y) (mem-cons.0 my) (λ ey. absurd (All-not z a n x mx' (rw ey at yx)))
          (λ my'. RanksDiffer-of_Apart a apart x y mx' my' h k))
