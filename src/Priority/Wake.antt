-- ===== src/Priority/Wake.antt =====
-- A blocking `Pop` whose helper is signalled beside an item.
use rdispatch.Common.{◌<◌, ◌≡◌, ◌≢◌, refl, true, [], arith, length, Yields-value}
use rdispatch.Priority.Item.{Item}
use rdispatch.Priority.Queue.{Queue}
use rdispatch.Priority.Push.{IsValid}
use rdispatch.Priority.Pop.{Popped, pop-Popped}
use rdispatch.Priority.Wait.{
  selecting, testing, returned, woken, closed, absent, State, Event, IsExternal, Step, takes, wakes,
  resumes, Reach, calling,
}
use rdispatch.Priority.WaitLaws.{calling-Inv, Reach-Inv}

-- Steps of the process alone, with nobody from outside.
pub data Moves (s : State) : State → Type 0 where
  stays : Moves s s
  moves : {t u : State} {e : Event} → Moves s t → Step t e u → ¬ IsExternal e → Moves s u

-- The process can come, by itself, to a state in which `Pop` is back with an item.
pub record Delivers (s : State) : Type 0 where
  pub last : State
  pub item : Item
  pub path : Moves s last
  pub at_caller : last.consumer ≡ returned item true
  pub popped : Popped s.queue.items item last.queue

-- Once the helper of a waiting `Pop` is signalled and the queue holds an item, the process by itself can
-- return from `Pop`, with an item that ranks below none of those in the queue, and leaves the others.
pub woken-Delivers :
    (q : Queue) (s : State)
    → IsValid q
    → Reach (calling q) s
    → s.consumer ≡ selecting
    → s.helper ≡ woken
    → s.queue.items ≢ []
    → Delivers s
woken-Delivers q s v r c h some_item =
    let inv = Reach-Inv (calling-Inv q v) r in
    let some_left : 0 < length s.queue.items = grind arith in
    let ((item, rest), popped, p) = Yields-value (pop-Popped s.queue inv.valid some_left) in
    let ahead : Moves s (record s { helper = closed }) = moves stays (wakes h) (λ x. x) in
    let back : Moves s (record s { consumer = testing; helper = absent }) =
      moves ahead (resumes c refl) (λ x. x) in
    record {
      last = record s { queue = rest; consumer = returned item true; helper = absent };
      item = item;
      path = moves back (takes refl some_item popped) (λ x. x);
      at_caller = refl;
      popped = p;
    }
