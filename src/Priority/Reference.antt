-- ===== src/Priority/Reference.antt =====
-- The queue against a reference: a list that is kept sorted by insertion.
use mathlib.Core.List.Perm
use rdispatch.Common.{
  ◌≡◌, Bool, true, false, List, [], ◌∷◌, Mem, Perm, All, if◌then◌else◌, Bool-cases, inl, inr,
}
use rdispatch.Priority.Item.{Item, zero_item, lower, Above, Above-of_lower, Above-trans}
use rdispatch.Priority.History.{Call, pushes, pops, Outranks}

-- A new item goes behind all that do not rank below it.
unfoldable pub insert : Item → List Item → List Item
insert x [] = x ∷ []
insert x (y ∷ ys) = if lower y x then x ∷ (y ∷ ys) else y ∷ insert x ys

-- The calls in turn on a sorted list, with the answers of the `TryPop`s.
unfoldable pub reference : List Call → List Item → List (Item × Bool) × List Item
reference [] s = ([], s)
reference (pushes x ∷ calls) s = reference calls (insert x s)
reference (pops ∷ calls) [] =
    let (answers, last) = reference calls [] in ((zero_item, false) ∷ answers, last)
reference (pops ∷ calls) (x ∷ s) =
    let (answers, last) = reference calls s in ((x, true) ∷ answers, last)

abbrev pub IsSorted : List Item → Type 0
IsSorted [] = Unit
IsSorted (x ∷ xs) = All (Above x) xs × IsSorted xs

-- The items that are pushed.
abbrev pub pushed : List Call → List Item
pushed [] = []
pushed (pushes x ∷ calls) = x ∷ pushed calls
pushed (pops ∷ calls) = pushed calls

-- No two items have the same level and the same time.
abbrev pub RanksDiffer : List Item → Type 0
RanksDiffer a = (x y : Item) → Mem x a → Mem y a → Outranks x y → Outranks y x → x ≡ y

All-insert : (P : Item → Type 0) (x : Item) (ys : List Item) → P x → All P ys → All P (insert x ys)
unfolding insert
All-insert P x [] px ps = (px, tt)
All-insert P x (y ∷ ys) px (py, ps) = elim (Bool-cases (lower y x)) [
  | inl e ↦ rw e (px, (py, ps))
  | inr e ↦ rw e (py, All-insert P x ys px ps)
]

All-weaken : (P Q : Item → Type 0) (xs : List Item) → ((t : Item) → P t → Q t) → All P xs → All Q xs
All-weaken P Q [] h a = tt
All-weaken P Q (x ∷ xs) h (p, a) = (h x p, All-weaken P Q xs h a)

pub insert-IsSorted : (x : Item) (s : List Item) → IsSorted s → IsSorted (insert x s)
unfolding insert
insert-IsSorted x [] i = (tt, tt)
insert-IsSorted x (y ∷ ys) (all, i) = elim (Bool-cases (lower y x)) [
  | inl e ↦
      let over = Above-of_lower y x e in
      rw e
        ((over, All-weaken (Above y) (Above x) ys (λ t h. Above-trans x y t over h) all), (all, i))
  | inr e ↦ rw e (All-insert (Above y) x ys e all, insert-IsSorted x ys i)
]

pub insert-perm : (x : Item) (s : List Item) → Perm (insert x s) (x ∷ s)
unfolding insert
insert-perm x [] = Perm.rfl
insert-perm x (y ∷ ys) = elim (Bool-cases (lower y x)) [
  | inl e ↦ rw e Perm.rfl
  | inr e ↦ rw e (Perm.trans (Perm.cons y (insert-perm x ys)) (Perm.swap x y ys))
]
