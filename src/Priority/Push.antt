-- ===== src/Priority/Push.antt =====
-- `Push` on a heap.
use mathlib.Core.List.Perm
use rdispatch.Common.{
  ◌+◌, ◌-◌, ◌≡◌, List, [], ◌∷◌, ◌++◌, Perm, Yields, yields, Yields-then, arith, length,
  length-append, get_or-append, concat-perm,
}
use rdispatch.Priority.Item.{Item, zero_item}
use rdispatch.Priority.Queue.{Queue, push}
use rdispatch.Priority.Order.{parent, IsHeap}
use rdispatch.Priority.Up.{UpInv, sift_up-heaps}

abbrev pub IsValid : Queue → Type 0
IsValid q = IsHeap q.items

-- `r` is a valid queue of exactly the items `a`.
abbrev pub Holds : List Item → Queue → Type 0
Holds a r = IsValid r × Perm r.items a

-- `Push` ends without a panic; the queue is a heap of the old items and the new one.
pub push-Holds :
    (q : Queue) (item : Item) → IsValid q → Yields (Holds (item ∷ q.items)) (push q item)
unfolding push
push-Holds q item v =
    Yields-then (sift_up-heaps grown (length grown - 1) start)
      λ a s. yields (s.0, Perm.trans s.1 (concat-perm q.items item))
  where
    grown : List Item
    grown = q.items ++ item ∷ []

    size : length grown ≡ length q.items + 1
    size = length-append q.items (item ∷ [])

    start : UpInv grown (length grown - 1)
    start = record {
      placed = omega (arith, size);
      ordered = λ c p r s. ground (
        arith,
        size,
        v c,
        get_or-append zero_item q.items (item ∷ []) c,
        get_or-append zero_item q.items (item ∷ []) (parent c),
      );
      bridged = λ c p r s. absurd (omega (arith, size));
    }
