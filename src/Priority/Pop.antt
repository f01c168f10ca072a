-- ===== src/Priority/Pop.antt =====
-- What `pop` and `TryPop` hand out, and what they leave.
use mathlib.Core.List.{not-mem-nil, mem-cons}
use mathlib.Core.List.Perm
use mathlib.Core.Logic.Or
use rdispatch.Common.{
  ℕ, suc, ◌-◌, ◌<◌, ◌≡◌, refl, Bool, true, false, List, [], ◌∷◌, ◌++◌, Mem, Perm, done, Yields,
  yields, Yields-then, Yields-branch, arith, ltb, ◌==◌, length, set, take, get_or, length-set,
  get_or-set, get_or-take, get_elem?-get_or, take-append-get_or, set-perm, concat-perm, length-perm,
  ◌∙◌, if◌then◌else◌,
}
use rdispatch.Priority.Item.{Item, zero_item, Above}
use rdispatch.Priority.Queue.{Queue, pop, try_pop, sift_down}
use rdispatch.Priority.Order.{at, parent, IsHeap, Heaped, top_highest}
use rdispatch.Priority.Down.{DownInv, sift_down-heaps}
use rdispatch.Priority.Push.{IsValid}

-- What a successful removal returns from a queue of the items `a`.
pub record Popped (a : List Item) (item : Item) (r : Queue) : Type 0 where
  pub valid : IsValid r
  pub same : Perm (item ∷ r.items) a
  pub highest : (t : Item) → Mem t a → Above item t

Bool_set : IsSet Bool
Bool_set = hlevel

Above-mem :
    (x : Item) (a : List Item)
    → ((i : ℕ) → i < length a → Above x (at a i))
    → (t : Item) → Mem t a
    → Above x t
unfolding get_or
Above-mem x [] h t m = absurd (not-mem-nil m)
Above-mem x (y ∷ a) h t m =
    Or.elim (Bool_set _ _) (mem-cons.0 m) (λ e. rw e (h 0 (omega arith)))
      (Above-mem x a (λ i p. h (suc i) (omega arith)) t)

module _ (a : List Item) (n : ℕ) (size : length a ≡ suc n) where
  -- The slice that `pop` hands to `siftDown`.
  abbrev rest : List Item
  rest = take n (set a 0 (at a n))

  rest-perm : Perm (at a 0 ∷ rest) a
  rest-perm =
      let last = at a n in
      let moved = set a 0 last in
      let end : at moved n ≡ last = ground (arith, get_or-set zero_item a 0 n last) in
      let whole : rest ++ last ∷ [] ≡ moved =
        rw end at (take-append-get_or zero_item n moved (length-set a 0 last ∙ size)) in
      let traded = set-perm zero_item a 0 last (omega arith) in
      let front = rw (← whole) at traded in
      Perm.cons_inv (
        Perm.trans (Perm.swap (at a 0) last rest)
          (Perm.trans (Perm.cons (at a 0) (Perm.symm (concat-perm rest last))) front))

  rest-size : length rest ≡ n
  rest-size = omega (arith, length-perm rest-perm)

  rest-DownInv : IsHeap a → 0 < n → DownInv rest 0
  rest-DownInv h some_left =
      let moved = get_or-set zero_item a 0 in
      let kept = get_or-take zero_item n (set a 0 (at a n)) in
      record {
        placed = omega (arith, rest-size);
        ordered = λ c p q r. ground (
          arith,
          rest-size,
          h c,
          moved c (at a n),
          moved (parent c) (at a n),
          kept c,
          kept (parent c),
        );
        bridged = λ c p q r s. absurd (omega arith);
      }

  rest-heaps :
      IsHeap a → Yields (Heaped rest) (if ltb 0 (length rest) then sift_down rest 0 else done rest)
  rest-heaps h =
      Yields-branch (ltb 0 (length rest))
        (λ more. sift_down-heaps rest 0 (rest-DownInv h (ground (arith, rest-size))))
        (λ nothing. yields (λ c p q. absurd (ground arith), Perm.rfl))

-- `pop` on a valid queue that is not empty ends without a panic and removes one item; none of the
-- items ranks above it.
pub pop-Popped :
    (q : Queue)
    → IsValid q
    → 0 < length q.items
    → Yields (λ (item, r). Popped q.items item r) (pop q)
unfolding pop
pop-Popped q v h =
    let n = length q.items - 1 in
    let size : length q.items ≡ suc n = omega arith in
    rw (get_elem?-get_or zero_item q.items 0 h, get_elem?-get_or zero_item q.items n (omega arith))
      (Yields-then (rest-heaps q.items n size v) λ a s. yields (record {
        valid = s.0;
        same = Perm.trans (Perm.cons _ s.1) (rest-perm q.items n size);
        highest = Above-mem _ q.items λ i. top_highest q.items i v;
      }))

-- `TryPop` reports `false` exactly on an empty queue, and leaves it; otherwise it is `pop`.
pub data TryPopped (q : Queue) : Item × Bool × Queue → Type 0 where
  nothing : q.items ≡ [] → TryPopped q (zero_item, false, q)
  popped : {item : Item} {r : Queue} → Popped q.items item r → TryPopped q (item, true, r)

nil_of_length : (a : List Item) → length a ≡ 0 → a ≡ []
nil_of_length [] h = refl
nil_of_length (x ∷ a) h = absurd (omega arith)

-- On a valid queue `TryPop` ends without a panic: on an empty queue with `Item{}`, `false` and the
-- queue as it was, and on any other with `true`, an item that ranks below none, and the others.
pub try_pop-TryPopped : (q : Queue) → IsValid q → Yields (TryPopped q) (try_pop q)
unfolding try_pop
try_pop-TryPopped q v =
    Yields-branch (length q.items == 0)
      (λ e. yields (nothing (nil_of_length q.items (ground arith))))
      (λ e. Yields-then (pop-Popped q v (ground arith)) λ (item, r) p. yields (popped p))
