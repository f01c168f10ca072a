-- ===== src/Priority/Up.antt =====
-- `siftUp` on a slice in which one item may stand too low.
use mathlib.Core.List.Perm
use rdispatch.Common.{
  ℕ, zero, suc, ◌+◌, ◌<◌, ◌≡◌, ◌≢◌, true, List, Yields, yields, Yields-branch, arith, ltb, length,
  swap, get_or-swap, length-swap,
}
use rdispatch.Priority.Item.{Item, zero_item, lower, Above, Above-of_lower, Above-trans}
use rdispatch.Priority.Queue.{sift_up_loop, sift_up}
use rdispatch.Priority.Order.{at, parent, IsBridged, Heaped, Heaped-swap, less-done, exchange-done}

-- Only the edge between `i` and its parent may be out of order.
pub record UpInv (a : List Item) (i : ℕ) : Type 0 where
  pub placed : i < length a
  pub ordered : (c : ℕ) → 0 < c → c < length a → c ≢ i → Above (at a (parent c)) (at a c)
  pub bridged : IsBridged a i

rise-UpInv :
    (a : List Item) (i : ℕ)
    → UpInv a i
    → 0 < i
    → lower (at a (parent i)) (at a i) ≡ true
    → UpInv (swap zero_item a i (parent i)) (parent i)
rise-UpInv a i v positive below =
    let moved = get_or-swap zero_item a i (parent i) v.placed (omega arith) in
    let size = length-swap zero_item a i (parent i) in
    let up = Above-of_lower (at a (parent i)) (at a i) below in
    record {
      placed = omega arith;
      ordered = λ c p q r. ground (
        arith,
        moved c,
        moved (parent c),
        v.ordered c,
        v.bridged c,
        Above-trans (at a i) (at a (parent i)) (at a c),
      );
      bridged = λ c p q r s. ground (
        arith,
        moved c,
        moved (parent (parent i)),
        v.ordered c,
        v.ordered (parent i),
        Above-trans (at a (parent (parent i))) (at a (parent i)) (at a c),
      );
    }

sift_up_loop-heaps :
    (fuel : ℕ) (a : List Item) (i : ℕ)
    → i < fuel
    → UpInv a i
    → Yields (Heaped a) (sift_up_loop fuel a i)
unfolding sift_up_loop
sift_up_loop-heaps zero a i f v = absurd (omega arith)
sift_up_loop-heaps (suc fuel) a i f v =
    let above : parent i < length a = omega (arith, v.placed) in
    rw (less-done a (parent i) i above v.placed, exchange-done a i (parent i) v.placed above)
      (Yields-branch (ltb 0 i)
        (λ positive.
          Yields-branch (lower (at a (parent i)) (at a i))
            (λ below. Heaped-swap a i (parent i) v.placed above (
              sift_up_loop-heaps fuel (swap zero_item a i (parent i)) (parent i) (ground arith)
                (rise-UpInv a i v (ground arith) below)))
            (λ settled. yields (λ c p q. ground (arith, v.ordered c), Perm.rfl)))
        (λ root. yields (λ c p q. v.ordered c p q (ground arith), Perm.rfl)))

-- `siftUp` ends, and makes a heap of a slice in which one item may stand too low.
pub sift_up-heaps : (a : List Item) (i : ℕ) → UpInv a i → Yields (Heaped a) (sift_up a i)
unfolding sift_up
sift_up-heaps a i v = sift_up_loop-heaps (i + 1) a i (omega arith) v
