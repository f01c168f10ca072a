-- ===== src/Priority/Locked/Safe.antt =====
-- The mutex of `Queue` makes its methods atomic, and with them the queue a service on the items.
use rdispatch.Common.{
  ◌≡◌, sym, subst, Bool, true, false, none, List, [], ◌∷◌, Mem, Perm, ℕ, Yields, yields,
  Yields-then, Yields-weaken, Yields-at, length,
}
use rdispatch.Mutex.Program.{perform}
use rdispatch.Mutex.Threads.{State, waits, starting, Reach}
use rdispatch.Mutex.Invariant.{Replays}
use rdispatch.Mutex.Linear.{free-Replays}
use rdispatch.Mutex.Served.{Served, waits-Served}
use rdispatch.Priority.Item.{Item, zero_item}
use rdispatch.Priority.Queue.{Queue, len}
use rdispatch.Priority.Order.{IsHeap}
use rdispatch.Priority.Push.{push-Holds}
use rdispatch.Priority.Pop.{TryPopped, nothing, popped, try_pop-TryPopped}
use rdispatch.Priority.History.{Outranks, Outranks-of_Above}
use rdispatch.Priority.Locked
use rdispatch.Priority.Locked.{Call, pushes, pops, counts, Answer, pushed, counted, body}
use rdispatch.Priority.Locked.Whole.{whole, body-whole}

-- What a call does to the items and answers, whatever their order in the slice.
pub data Does (a : List Item) : Call → Answer → List Item → Type 0 where
  puts : {b : List Item} (x : Item) → Perm b (x ∷ a) → Does a (pushes x) pushed b
  refuses : a ≡ [] → Does a pops (Locked.popped zero_item false) a
  gives :
      {b : List Item} (x : Item)
      → Perm (x ∷ b) a
      → ((t : Item) → Mem t a → Outranks x t)
      → Does a pops (Locked.popped x true) b
  tells : Does a counts (counted (length a)) a

-- The calls of a history one after another.
abbrev pub Did : List Item → List (Call × Answer) → List Item → Type 0
Did a [] u = a ≡ u
Did a ((c, r) ∷ h) u = (b : List Item) × Does a c r b × Did b h u

abbrev Ends : List Item → Call → Answer × List Item → Type 0
Ends a c (r, b) = Does a c r b × IsHeap b

after_try :
    (a : List Item) (t : Item × Bool × Queue)
    → IsHeap a
    → TryPopped (record { items = a }) t
    → Ends a pops (Locked.popped t.0 t.1, t.2.items)
after_try a t v (nothing e) = (refuses e, v)
after_try a t v (popped {item = x} p) =
    (gives x p.same (λ u m. Outranks-of_Above x u (p.highest u m)), p.valid)

whole-Ends : (a : List Item) → IsHeap a → (c : Call) → Yields (Ends a c) (whole c a)
unfolding whole len
whole-Ends a v (pushes x) =
    Yields-then (push-Holds (record { items = a }) x v) λ q (w, same). yields (puts x same, w)
whole-Ends a v pops =
    Yields-then (try_pop-TryPopped (record { items = a }) v) λ t p. yields (after_try a t v p)
whole-Ends a v counts = yields (tells, v)

body-Ends : (a : List Item) → IsHeap a → (c : Call) → Yields (Ends a c) (perform (body c) a)
body-Ends a v c = subst (Yields (Ends a c)) (sym (body-whole c a)) (whole-Ends a v c)

Replays-Did :
    (a u : List Item) (h : List (Call × Answer))
    → IsHeap a
    → Replays body a h u
    → Did a h u × IsHeap u
Replays-Did a u [] v r = (r, subst IsHeap r v)
Replays-Did a u ((c, r) ∷ h) v (b, e, rest) =
    let (does, w) = Yields-at (body-Ends a v c) e in
    let (did, last) = Replays-Did b u h w rest in ((b, does, did), last)

-- However goroutines interleave their accesses to the slice, while the lock is free the finished calls have
-- answered as a service on the items, one after another as they unlocked, and the slice is a heap of what
-- the service is left with.
pub threads-Did :
    (first : List Item) (s : State (List Item) Call Answer)
    → IsHeap first
    → Reach body (starting first) s
    → s.owner ≡ none
    → Did first s.history s.memory × IsHeap s.memory
threads-Did first s v r free =
    Replays-Did first s.memory s.history v (free-Replays body first s r free)

-- At every moment a goroutine that waits for the lock can come to have its call answered, by a run in which
-- only it and the goroutine that has the lock have steps, and in which at most one call comes before it, and
-- none if the lock is free.
pub waiting-Served :
    (first : List Item) (s : State (List Item) Call Answer) (i : ℕ) (c : Call)
    → IsHeap first
    → Reach body (starting first) s
    → s.threads i ≡ waits c
    → Served body s i c
waiting-Served first s i c v r w =
    waits-Served body IsHeap (λ a h c. Yields-weaken (body-Ends a h c) λ (r, b) e. e.1) first s i c
      v r w
