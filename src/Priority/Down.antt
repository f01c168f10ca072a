-- ===== src/Priority/Down.antt =====
-- `siftDown` on a slice in which one item may stand too high.
use mathlib.Core.List.Perm
use rdispatch.Common.{
  ℕ, zero, suc, ◌+◌, ◌-◌, ◌*◌, ◌≤◌, ◌<◌, ◌≡◌, ◌≢◌, ◌⊎◌, inl, inr, refl, Bool, true, false, List,
  done, Yields, yields, Yields-then, Yields-branch, arith, ltb, ◌==◌, if◌then◌else◌, length, swap,
  get_or-swap, length-swap,
}
use rdispatch.Priority.Item.{Item, zero_item, lower, Above, Above-refl, Above-of_lower, Above-trans}
use rdispatch.Priority.Queue.{better, sift_down_loop, sift_down}
use rdispatch.Priority.Order.{
  at, parent, IsHeap, IsBridged, Heaped, Heaped-swap, less-done, exchange-done,
}

-- Only the edges between `i` and its children may be out of order.
pub record DownInv (a : List Item) (i : ℕ) : Type 0 where
  pub placed : i < length a
  pub ordered : (c : ℕ) → 0 < c → c < length a → parent c ≢ i → Above (at a (parent c)) (at a c)
  pub bridged : IsBridged a i

-- `m` is the highest of `i` and of those of its children that come no later than `seen`.
record IsBest (a : List Item) (i seen m : ℕ) : Type 0 where
  placed : m < length a
  near : (m ≡ i) ⊎ ((0 < m) × (parent m ≡ i) × (lower (at a i) (at a m) ≡ true))
  highest : (c : ℕ) → 0 < c → c < length a → c ≤ seen → parent c ≡ i → Above (at a m) (at a c)

lower_trans : (x y z : Item) → Above y x → lower y z ≡ true → lower x z ≡ true
unfolding lower
lower_trans x y z h k = ground arith

-- The test of `better` with the outcome of its comparison.
pick-IsBest :
    (a : List Item) (i m seen child : ℕ) (below : Bool)
    → lower (at a m) (at a child) ≡ below
    → child ≡ suc seen
    → 0 < child
    → child < length a
    → parent child ≡ i
    → IsBest a i seen m
    → Yields (IsBest a i child) (done (if below then child else m))
pick-IsBest a i m seen child true e next positive fits under s = yields (record {
  placed = fits;
  near = inr (
    positive,
    under,
    ground (
      arith,
      s.near,
      Above-refl (at a i),
      Above-of_lower (at a i) (at a m),
      lower_trans (at a i) (at a m) (at a child),
    ),
  );
  highest = λ c p q r t. ground (
    arith,
    s.highest c,
    Above-refl (at a child),
    Above-trans (at a child) (at a m) (at a c),
    Above-of_lower (at a m) (at a child) e,
  );
})
pick-IsBest a i m seen child false e next positive fits under s = yields (record {
  placed = s.placed;
  near = s.near;
  highest = λ c p q r t. ground (arith, s.highest c);
})

better-IsBest :
    (a : List Item) (i m seen child : ℕ)
    → child ≡ suc seen
    → parent child ≡ i
    → IsBest a i seen m
    → Yields (IsBest a i child) (better a m child)
unfolding better
better-IsBest a i m seen child next under s =
    Yields-branch (ltb child (length a))
      (λ fits. rw (less-done a m child s.placed (ground arith)) (
        pick-IsBest a i m seen child (lower (at a m) (at a child)) refl next (omega arith)
          (ground arith) under s))
      (λ past. yields (record {
        placed = s.placed;
        near = s.near;
        highest = λ c p q r t. s.highest c p q (ground arith) t;
      }))

-- With no child looked at, the item itself is the highest.
start-IsBest : (a : List Item) (i : ℕ) → i < length a → IsBest a i (2 * i) i
start-IsBest a i h = record {
  placed = h;
  near = inl refl;
  highest = λ c p q r t. absurd (omega arith);
}

-- A best item other than `i` is a child of `i` that ranks above it.
moved_down :
    (a : List Item) (i m : ℕ)
    → IsBest a i (2 * i + 2) m
    → m ≢ i
    → (0 < m) × (parent m ≡ i) × (lower (at a i) (at a m) ≡ true)
moved_down a i m s moves = ground (arith, s.near)

settled-IsHeap :
    (a : List Item) (i m : ℕ) → DownInv a i → IsBest a i (2 * i + 2) m → m ≡ i → IsHeap a
settled-IsHeap a i m v s e c p q = ground (arith, v.ordered c, s.highest c)

sink-DownInv :
    (a : List Item) (i m : ℕ)
    → DownInv a i
    → IsBest a i (2 * i + 2) m
    → m ≢ i
    → DownInv (swap zero_item a i m) m
sink-DownInv a i m v s moves =
    let (positive, under, below) = moved_down a i m s moves in
    let size = length-swap zero_item a i m in
    let moved = get_or-swap zero_item a i m v.placed s.placed in
    let up = Above-of_lower (at a i) (at a m) below in
    record {
      placed = omega (arith, s.placed);
      ordered = λ c p q r.
          ground (arith, moved c, moved (parent c), v.ordered c, v.bridged m, s.highest c);
      bridged = λ c p q r t. ground (arith, moved c, moved (parent m), v.ordered c);
    }

sift_down_loop-heaps :
    (fuel : ℕ) (a : List Item) (i : ℕ)
    → length a - i < fuel
    → DownInv a i
    → Yields (Heaped a) (sift_down_loop fuel a i)
unfolding sift_down_loop
sift_down_loop-heaps zero a i f v = absurd (omega arith)
sift_down_loop-heaps (suc fuel) a i f v =
    let left = 2 * i + 1 in
    let children = start-IsBest a i v.placed in
    Yields-then (better-IsBest a i i (2 * i) left (omega arith) (omega arith) children) λ l sl.
      Yields-then (better-IsBest a i l left (2 * i + 2) (omega arith) (omega arith) sl) λ m s.
        rw (exchange-done a i m v.placed s.placed) (
          Yields-branch (m == i)
            (λ still. yields (settled-IsHeap a i m v s (ground arith), Perm.rfl))
            (λ moves.
              let inv = sink-DownInv a i m v s (ground arith) in
              Heaped-swap a i m v.placed s.placed (
                sift_down_loop-heaps fuel (swap zero_item a i m) m
                  (ground (arith, length-swap zero_item a i m, s.near, s.placed)) inv)))

-- `siftDown` ends, and makes a heap of a slice in which one item may stand too high.
pub sift_down-heaps : (a : List Item) (i : ℕ) → DownInv a i → Yields (Heaped a) (sift_down a i)
unfolding sift_down
sift_down-heaps a i v = sift_down_loop-heaps (length a + 1) a i (omega arith) v
