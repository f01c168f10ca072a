-- ===== src/Priority/Order.antt =====
-- The heap order of the slice behind the queue.
use mathlib.Core.List.Perm
use rdispatch.Common.{
  ℕ, zero, suc, ◌-◌, ◌/◌, ◌<◌, ◌≡◌, List, Perm, Run, done, Yields, Yields-weaken, arith, get_or,
  length, swap, get_elem?-get_or, swap-perm,
}
use rdispatch.Priority.Item.{Item, zero_item, lower, Above, Above-refl, Above-trans}
use rdispatch.Priority.Queue.{less, exchange}

abbrev pub at : List Item → ℕ → Item
at a i = get_or a i zero_item

abbrev pub parent : ℕ → ℕ
parent c = (c - 1) / 2

-- No item ranks above its parent.
abbrev pub IsHeap : List Item → Type 0
IsHeap a = (c : ℕ) → 0 < c → c < length a → Above (at a (parent c)) (at a c)

-- The children of `i` may stand directly under the parent of `i`.
abbrev pub IsBridged : List Item → ℕ → Type 0
IsBridged a i =
    (c : ℕ) → 0 < c → c < length a → parent c ≡ i → 0 < i → Above (at a (parent i)) (at a c)

-- `b` is a heap of exactly the items of `a`.
abbrev pub Heaped : List Item → List Item → Type 0
Heaped a b = IsHeap b × Perm b a

pub less-done :
    (a : List Item) (i j : ℕ)
    → i < length a
    → j < length a
    → less a i j ≡ done (lower (at a i) (at a j))
unfolding less
less-done a i j hi hj = rw (get_elem?-get_or zero_item a i hi, get_elem?-get_or zero_item a j hj)

pub exchange-done :
    (a : List Item) (i j : ℕ)
    → i < length a
    → j < length a
    → exchange a i j ≡ done (swap zero_item a i j)
unfolding exchange swap
exchange-done a i j hi hj =
    rw (get_elem?-get_or zero_item a j hj, get_elem?-get_or zero_item a i hi)

-- A heap of the swapped items is a heap of the items.
pub Heaped-swap :
    (a : List Item) (i j : ℕ) {r : Run (List Item)}
    → i < length a
    → j < length a
    → Yields (Heaped (swap zero_item a i j)) r
    → Yields (Heaped a) r
Heaped-swap a i j hi hj run =
    Yields-weaken run λ b s. (s.0, Perm.trans s.1 (swap-perm zero_item a i j hi hj))

top_below :
    (k : ℕ) (a : List Item) (i : ℕ) → IsHeap a → i < k → i < length a → Above (at a 0) (at a i)
top_below zero a i h f p = absurd (omega arith)
top_below (suc k) a zero h f p = Above-refl (at a 0)
top_below (suc k) a (suc i) h f p =
    Above-trans (at a 0) (at a (parent (suc i))) (at a (suc i))
      (top_below k a (parent (suc i)) h (omega arith) (omega arith)) (h (suc i) (omega arith) p)

-- The root of a heap ranks below no item of it.
pub top_highest : (a : List Item) (i : ℕ) → IsHeap a → i < length a → Above (at a 0) (at a i)
top_highest a i h p = top_below (suc i) a i h (omega arith) p
