-- ===== src/Priority/Agreement.antt =====
-- The queue and the sorted list answer alike.
use mathlib.Core.List.{
  mem-cons_self, mem-cons, mem-cons_of_mem, mem-append_right, not-mem-nil, perm_middle,
}
use mathlib.Core.List.Perm
use mathlib.Core.Logic.Or
use rdispatch.Common.{
  ◌≡◌, refl, ap, Bool, true, false, List, [], ◌∷◌, ◌++◌, Mem, Perm, All, Yields, Yields-weaken,
}
use rdispatch.Priority.Item.{Item, zero_item, Above, Above-refl}
use rdispatch.Priority.Queue.{Queue}
use rdispatch.Priority.Push.{IsValid}
use rdispatch.Priority.History.{
  Call, run, Outranks, Outranks-of_Above, Serves, ends, arrives, refuses, serves, run-Serves,
}
use rdispatch.Priority.Reference.{
  insert, reference, IsSorted, pushed, RanksDiffer, insert-IsSorted, insert-perm,
}

Above-prop : (x y : Item) → IsProp (Above x y)
Above-prop x y = hlevel

All-mem : (x : Item) (xs : List Item) → All (Above x) xs → (t : Item) → Mem t xs → Above x t
All-mem x [] a t m = absurd (not-mem-nil m)
All-mem x (y ∷ xs) (p, a) t m =
    Or.elim (Above-prop x t) (mem-cons.0 m) (λ e. rw e p) (All-mem x xs a t)

-- The first of a sorted list outranks all of it.
first-Outranks :
    (y : Item) (s : List Item) → IsSorted (y ∷ s) → (t : Item) → Mem t (y ∷ s) → Outranks y t
first-Outranks y s (all, i) t m =
    Outranks-of_Above y t
      (Or.elim (Above-prop y t) (mem-cons.0 m) (λ e. rw e (Above-refl y)) (All-mem y s all t))

-- What is left after the first calls.
RanksDiffer-subset :
    (a b : List Item) → ((t : Item) → Mem t b → Mem t a) → RanksDiffer a → RanksDiffer b
RanksDiffer-subset a b h d x y mx my = d x y (h x mx) (h y my)

-- The answers and the list that is left are the reference's.
abbrev pub Agrees : List Call → List Item → List (Item × Bool) → List Item → Type 0
Agrees calls s answers b = (answers ≡ (reference calls s).0) × Perm b (reference calls s).1

Serves-Agrees :
    (a s b : List Item) (calls : List Call) (answers : List (Item × Bool))
    → Serves a calls answers b
    → IsSorted s
    → Perm s a
    → RanksDiffer (pushed calls ++ a)
    → Agrees calls s answers b
unfolding reference
Serves-Agrees a s b _ _ (ends e) i p d = (refl, Perm.trans (Perm.symm e) (Perm.symm p))
Serves-Agrees a s b _ answers (arrives {calls = calls} x h) i p d =
    Serves-Agrees (x ∷ a) (insert x s) b calls answers h (insert-IsSorted x s i)
      (Perm.trans (insert-perm x s) (Perm.cons x p))
      (RanksDiffer-subset _ _ (λ t m. (Perm.mem_iff (perm_middle (pushed calls) a)).0 m) d)
Serves-Agrees a [] b _ _ (refuses {calls = calls} {answers = answers} e h) i p d =
    let (same, left) = Serves-Agrees a [] b calls answers h i p d in
    (ap (◌∷◌ (zero_item, false)) same, left)
Serves-Agrees a (y ∷ s) b _ _ (refuses e h) i p d =
    absurd (let empty = Perm.eq-nil (rw e at p) in cc)
Serves-Agrees a [] b _ _ (serves {rest = rest} {calls = calls} {answers = answers} x same top h) i p
      d =
    absurd (let empty = Perm.eq-nil (Perm.trans same (Perm.symm p)) in cc)
Serves-Agrees a (y ∷ s) b _ _
      (serves {rest = rest} {calls = calls} {answers = answers} x same top h) i p d =
    let mx : Mem x a = (Perm.mem_iff same).0 mem-cons_self in
    let my : Mem y a = (Perm.mem_iff p).0 mem-cons_self in
    let e : x ≡ y =
      d x y (mem-append_right (pushed calls) mx) (mem-append_right (pushed calls) my) (top y my)
        (first-Outranks y s i x ((Perm.mem_iff p).1 mx)) in
    let fewer : Perm s rest = Perm.cons_inv (Perm.trans p (Perm.symm (rw e at same))) in
    let (same_answers, left) = Serves-Agrees rest s b calls answers h i.1 fewer (
      RanksDiffer-subset _ _
        (λ t m.
          (Perm.mem_iff (
              Perm.trans (Perm.symm (perm_middle (pushed calls) rest))
                (Perm.append_left (pushed calls) same))).0
            (mem-cons_of_mem x m))
        d) in
    (rw e (ap (◌∷◌ (y, true)) same_answers), left)

-- If no two of the items have the same level and the same time, the heap answers any calls exactly like
-- a list that is kept sorted by insertion, and is left with the same items.
pub run-Agrees :
    (calls : List Call) (q : Queue) (s : List Item)
    → IsValid q
    → IsSorted s
    → Perm s q.items
    → RanksDiffer (pushed calls ++ q.items)
    → Yields (λ (answers, r). Agrees calls s answers r.items) (run calls q)
run-Agrees calls q s v i p d =
    Yields-weaken (run-Serves calls q v)
      λ (answers, r) (h, w). Serves-Agrees q.items s r.items calls answers h i p d
