-- ===== src/Gateway/Loop/Balance.antt =====
-- What becomes of the items that clients push beside `drainQueue`.
use mathlib.Core.List.{append_assoc}
use mathlib.Core.List.Perm
use rdispatch.Common.{◌<◌, subst, true, List, [], ◌∷◌, ◌++◌, Perm, arith, length, Yields-at, past}
use rdispatch.Priority.Item.{Item}
use rdispatch.Priority.Queue.{Queue}
use rdispatch.Priority.Push.{IsValid, push-Holds}
use rdispatch.Priority.Pop.{pop-Popped}
use rdispatch.Priority.Wait.{
  State, Consumer, returned, Event, Step as PopStep, pushes, closes, signals_one, takes, launches,
  parks, wakes, resumes, gives_up,
}
use rdispatch.Priority.WaitLaws.{Inv, calling-Inv}
use rdispatch.Gateway.Loop.{
  Loop, start, arrived_with, Step, pops, publishes, fails, Reach, here, next,
}
use rdispatch.Gateway.Loop.Service.{Step-Served}

-- The item that is being published, if any.
abbrev pub in_hand : Consumer → List Item
in_hand (returned x true) = x ∷ []
in_hand _ = []

-- Published, being published, and queued items are together those that were there and those that arrived.
abbrev pub Balanced : List Item → List Item → List Item → Consumer → List Item → Type 0
Balanced first arrived sent c a = Perm (sent ++ (in_hand c ++ a)) (arrived ++ first)

module _ (first : List Item) where
  pop-Balanced :
      {s t : State} {e : Event} (sent arrived : List Item)
      → PopStep s e t
      → Inv s
      → Balanced first arrived sent s.consumer s.queue.items
      → Balanced first (arrived_with e arrived) sent t.consumer t.queue.items
  pop-Balanced {s} sent arrived (pushes {q = q} x p) v b =
      let same = (Yields-at (push-Holds s.queue x v.valid) p).1 in
      Perm.trans (past sent (past (in_hand s.consumer) same)) (Perm.cons x b)
  pop-Balanced sent arrived closes v b = b
  pop-Balanced sent arrived (signals_one n p) v b = b
  pop-Balanced {s} sent arrived (takes e some_item p) v b =
      let some_left : 0 < length s.queue.items = grind arith in
      let popped = Yields-at (pop-Popped s.queue v.valid some_left) p in
      let before = subst (λ c. Balanced first arrived sent c s.queue.items) e b in
      Perm.trans (Perm.append_left sent popped.same) before
  pop-Balanced {s} sent arrived (launches e none_left) v b =
      subst (λ c. Balanced first arrived sent c s.queue.items) e b
  pop-Balanced sent arrived (parks e) v b = b
  pop-Balanced sent arrived (wakes e) v b = b
  pop-Balanced {s} sent arrived (resumes e f) v b =
      subst (λ c. Balanced first arrived sent c s.queue.items) e b
  pop-Balanced {s} sent arrived (gives_up e d) v b =
      subst (λ c. Balanced first arrived sent c s.queue.items) e b

  Step-Balanced :
      {s t : Loop}
      → Step s t
      → Inv s.pop
      → Balanced first s.arrived s.published s.pop.consumer s.pop.queue.items
      → Balanced first t.arrived t.published t.pop.consumer t.pop.queue.items
  Step-Balanced {s} (pops e p) v b = pop-Balanced s.published s.arrived p v b
  Step-Balanced {s} (publishes x e) v b =
      let before = subst (λ c. Balanced first s.arrived s.published c s.pop.queue.items) e b in
      rw (append_assoc s.published (x ∷ []) s.pop.queue.items) before
  Step-Balanced {s} (fails x e p) v b =
      let before = subst (λ c. Balanced first s.arrived s.published c s.pop.queue.items) e b in
      let same = (Yields-at (push-Holds s.pop.queue x v.valid) p).1 in
      Perm.trans (Perm.append_left s.published same) before

  Reach-Balanced :
      {s t : Loop}
      → Reach s t
      → Inv s.pop
      → Balanced first s.arrived s.published s.pop.consumer s.pop.queue.items
      → Inv t.pop × Balanced first t.arrived t.published t.pop.consumer t.pop.queue.items
  Reach-Balanced here v b = (v, b)
  Reach-Balanced (next r st) v b =
      let (w, c) = Reach-Balanced r v b in ((Step-Served st w).0, Step-Balanced st w c)

-- However pushers, the context and NATS are interleaved with `drainQueue`, it loses and doubles nothing:
-- the items that it has published, the one that it is publishing, and those in the queue are together those
-- that were there at first and those that were pushed since.
pub drain-Balanced :
    (q : Queue) (s : Loop)
    → IsValid q
    → Reach (start q) s
    → Perm (s.published ++ (in_hand s.pop.consumer ++ s.pop.queue.items)) (s.arrived ++ q.items)
drain-Balanced q s v r = (Reach-Balanced q.items r (calling-Inv q v) Perm.rfl).1
