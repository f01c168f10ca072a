-- ===== src/Priority/Bag.antt =====
-- The queue as a bag, which forgets how the heap lays its items out.
use mathlib.Core.List.Perm
use mathlib.Core.Quot
use mathlib.Core.Quot.{Quot, Quot-set}
use rdispatch.Common.{
  ◌≡◌, refl, ap, Bool, true, false, List, [], ◌∷◌, Mem, Perm, Yields, Yields-weaken,
}
use rdispatch.Priority.Item.{Item, zero_item}
use rdispatch.Priority.Queue.{Queue}
use rdispatch.Priority.Push.{IsValid}
use rdispatch.Priority.History.{Call, pushes, pops, run, Outranks, Serves, run-Serves}

-- Lists of items up to permutation.
abbrev pub Bag : Type 0
Bag = Quot {α = List Item} Perm

abbrev pub bag_of : List Item → Bag
bag_of a = Quot.mk a

abbrev pub empty_bag : Bag
empty_bag = bag_of []

unfoldable pub put : Item → Bag → Bag
put x = Quot.lift Quot-set (λ a. bag_of (x ∷ a)) (λ a b p. Quot.sound (Perm.cons x p))

-- Some list of the bag has `x` outrank all that it holds.
abbrev pub IsTop : Item → Bag → Type 0
IsTop x b = (a : List Item) × (bag_of a ≡ b) × ((t : Item) → Mem t a → Outranks x t)

-- The service on bags: `Push` puts an item in, and `TryPop` takes out one that outranks all, or reports
-- `false` on the empty bag.
pub data BagServes (last : Bag) : Bag → List Call → List (Item × Bool) → Type 0 where
  ends : {b : Bag} → b ≡ last → BagServes last b [] []
  puts :
      {b : Bag} {calls : List Call} {answers : List (Item × Bool)} (x : Item)
      → BagServes last (put x b) calls answers
      → BagServes last b (pushes x ∷ calls) answers
  refuses :
      {b : Bag} {calls : List Call} {answers : List (Item × Bool)}
      → b ≡ empty_bag
      → BagServes last b calls answers
      → BagServes last b (pops ∷ calls) ((zero_item, false) ∷ answers)
  takes :
      {b : Bag} {calls : List Call} {answers : List (Item × Bool)} (x : Item) (rest : Bag)
      → put x rest ≡ b
      → IsTop x b
      → BagServes last rest calls answers
      → BagServes last b (pops ∷ calls) ((x, true) ∷ answers)

Serves-BagServes :
    {a b : List Item} {calls : List Call} {answers : List (Item × Bool)}
    → Serves a calls answers b
    → BagServes (bag_of b) (bag_of a) calls answers
unfolding put
Serves-BagServes (Serves.ends p) = ends (Quot.sound p)
Serves-BagServes (Serves.arrives x s) = puts x (Serves-BagServes s)
Serves-BagServes (Serves.refuses e s) = refuses (ap bag_of e) (Serves-BagServes s)
Serves-BagServes (Serves.serves {a = a} {rest = rest} x same top s) =
    takes x (bag_of rest) (Quot.sound same) (a, refl, top) (Serves-BagServes s)

-- The queue refines the service on bags, whose state forgets the layout of the heap: any calls on a
-- valid queue end, with answers that the bag of its items gives, and with the bag that is left.
pub run-BagServes :
    (calls : List Call) (q : Queue)
    → IsValid q
    → Yields
        (λ (answers, r). BagServes (bag_of r.items) (bag_of q.items) calls answers)
        (run calls q)
run-BagServes calls q v = Yields-weaken (run-Serves calls q v) λ r (s, w). Serves-BagServes s
