-- ===== src/Examples/Queues.antt =====
-- The priority queue of internal/gateway/priority at work.
use mathlib.Core.List.Perm
use rdispatch.Common.{
  zero, suc, ◌≡◌, refl, true, false, List, [], ◌∷◌, done, ◌++◌, Yields, arith, get_or,
}
use rdispatch.Priority.Level.{low, critical}
use rdispatch.Priority.Item.{Item, zero_item, lower}
use rdispatch.Priority.Queue.{Queue, new, push, pop, try_pop, sift_up, sift_down}
use rdispatch.Priority.Push.{IsValid}
use rdispatch.Priority.History.{Call, pushes, pops, run}
use rdispatch.Priority.Emptying.{pop_all, InOrder, pop_all-InOrder}
use rdispatch.Priority.Reference.{pushed, RanksDiffer}
use rdispatch.Priority.Agreement.{Agrees, run-Agrees}
use rdispatch.Examples.Ranks.{RanksDiffer-of_Apart}
use rdispatch.Priority.Bag.{bag_of, BagServes, run-BagServes}
use rdispatch.Priority.Ties.{ties-reordered}

abbrev pub urgent : Item
urgent = record { id = "a"; priority = critical; payload = []; created_at = 7 }

abbrev pub routine : Item
routine = record { id = "b"; priority = low; payload = 1 ∷ []; created_at = 3 }

abbrev pub older : Item
older = record { id = "c"; priority = low; payload = 2 ∷ []; created_at = 2 }

-- Two more of the level and the time of `older`.
abbrev twin : Item
twin = record older { id = "d" }

abbrev triplet : Item
triplet = record older { id = "e" }

abbrev pub two_items : Queue
two_items = record { items = urgent ∷ routine ∷ [] }

pub two_items-IsValid : IsValid two_items
unfolding lower get_or
two_items-IsValid zero p q = absurd (omega arith)
two_items-IsValid (suc zero) p q = refl
two_items-IsValid (suc (suc c)) p q = absurd (omega arith)

abbrev out_of_order : List Item
out_of_order = routine ∷ urgent ∷ []

-- `siftUp` swaps the new item with its parent.
sift_up_swaps : sift_up out_of_order 1 ≡ done (urgent ∷ routine ∷ [])
unfolding sift_up lower
sift_up_swaps = refl

-- Three pushes and three calls of `TryPop`: by level, and then by age.
three_by_rank :
    run (pushes routine ∷ pushes urgent ∷ pushes older ∷ pops ∷ pops ∷ pops ∷ pops ∷ []) new
    ≡ done ((urgent, true) ∷ (older, true) ∷ (routine, true) ∷ (zero_item, false) ∷ [], new)
unfolding run push try_pop pop sift_up sift_down new lower
three_by_rank = refl

abbrev some_calls : List Call
some_calls = pushes older ∷ pops ∷ pops ∷ pops ∷ pops ∷ []

run-BagServes_example :
    Yields
      (λ (answers, r). BagServes (bag_of r.items) (bag_of two_items.items) some_calls answers)
      (run some_calls two_items)
run-BagServes_example = run-BagServes some_calls two_items two_items-IsValid

two_items-RanksDiffer : RanksDiffer (pushed some_calls ++ two_items.items)
two_items-RanksDiffer = RanksDiffer-of_Apart (older ∷ urgent ∷ routine ∷ []) (
  (λ (h, k). ground arith, (λ (h, k). ground arith, tt)),
  ((λ (h, k). ground arith, tt), (tt, tt)),
)

run-Agrees_example :
    Yields
      (λ (answers, r). Agrees some_calls two_items.items answers r.items)
      (run some_calls two_items)
unfolding get_or
run-Agrees_example =
    run-Agrees some_calls two_items two_items.items two_items-IsValid
      (let first = two_items-IsValid 1 (omega arith) (omega arith) in ((first, tt), (tt, tt)))
      Perm.rfl two_items-RanksDiffer

pop_all-InOrder_example : Yields (InOrder two_items.items) (pop_all 3 two_items)
pop_all-InOrder_example = pop_all-InOrder 3 two_items (omega arith) two_items-IsValid

ties-reordered_example :
    run (pushes older ∷ pushes twin ∷ pushes triplet ∷ pops ∷ pops ∷ pops ∷ []) new
    ≡ done ((older, true) ∷ (triplet, true) ∷ (twin, true) ∷ [], new)
ties-reordered_example = ties-reordered older twin triplet refl refl refl refl
