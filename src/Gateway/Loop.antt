-- ===== src/Gateway/Loop.antt =====
-- cmd/gateway-api/main.go: `drainQueue` beside its pushers, one step of a goroutine at a time. `Drainer`
-- has the same loop a round at a time.
pub mod Service
pub mod Balance
pub mod End
use rdispatch.Common.{◌≡◌, Bool, true, false, Option, none, some, List, [], ◌∷◌, ◌++◌, done}
use rdispatch.Priority.Item.{Item}
use rdispatch.Priority.Queue.{Queue, push}
use rdispatch.Priority.Wait.{
  State, Consumer, testing, selecting, returned, Event, push_item, Step as PopStep, wake_up,
  calling,
}

-- The `Pop` of the round, and what has been published, in order, and pushed by clients. When `Pop` has
-- returned an item, the loop is in `js.Publish`; when it has returned `false`, the loop has returned.
pub record Loop : Type 0 where
  pub pop : State
  pub published : List Item
  pub arrived : List Item

abbrev pub start : Queue → Loop
start q = record { pop = calling q; published = []; arrived = [] }

abbrev pub arrived_with : Event → List Item → List Item
arrived_with (push_item x) xs = x ∷ xs
arrived_with _ xs = xs

-- The next round calls `Pop` again. `Push` signals before it returns.
pub data Step (s : Loop) : Loop → Type 0 where
  pops :
      {t : State} (e : Event)
      → PopStep s.pop e t
      → Step s (record s { pop = t; arrived = arrived_with e s.arrived })
  publishes :
      (x : Item)
      → s.pop.consumer ≡ returned x true
      → Step s (record s {
        pop = record s.pop { consumer = testing };
        published = s.published ++ x ∷ [];
      })
  fails :
      (x : Item) {q : Queue}
      → s.pop.consumer ≡ returned x true
      → push s.pop.queue x ≡ done q
      → Step s (record s {
        pop = record s.pop { queue = q; consumer = testing; helper = wake_up s.pop.helper };
      })

pub data Reach (s : Loop) : Loop → Type 0 where
  here : Reach s s
  next : {t u : Loop} → Reach s t → Step t u → Reach s u

-- The item that `js.Publish` is called with.
abbrev pub held : Consumer → Option Item
held (returned x true) = some x
held _ = none

-- The loop has returned.
abbrev pub has_returned : Consumer → Bool
has_returned (returned x false) = true
has_returned _ = false
