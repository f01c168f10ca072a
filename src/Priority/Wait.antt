-- ===== src/Priority/Wait.antt =====
-- The blocking `Pop`: one consumer, its helper goroutine, the condition variable, and any pushers.
-- What runs between a `Lock` and the next `Unlock`, `Wait` or `select` is one step. A `Signal` is a
-- step of its own, since `Push` sends it after it has unlocked.
use rdispatch.Common.{ℕ, suc, ◌+◌, ◌≡◌, ◌≢◌, Bool, true, false, [], done, arith}
use rdispatch.Priority.Item.{Item, zero_item}
use rdispatch.Priority.Queue.{Queue, push, pop}

-- The consumer: before the test of the loop, in the `select`, or back at its caller.
pub data Consumer : Type 0 where
  testing : Consumer
  selecting : Consumer
  returned : Item → Bool → Consumer

-- The goroutine of the round: none, launched but before its `Lock`, inside `Wait`, signalled, or past
-- `close(waiting)`.
pub data Helper : Type 0 where
  absent launched parked woken closed : Helper

pub record State : Type 0 where
  pub queue : Queue
  pub consumer : Consumer
  pub helper : Helper
  pub signals : ℕ  -- pushes that have unlocked and not yet signalled
  pub is_done : Bool  -- the channel `done` is closed

pub data Event : Type 0 where
  push_item : Item → Event
  close_done : Event
  signal take_item launch park wake resume give_up : Event

-- The steps from outside: a client pushes, or the context is cancelled.
abbrev pub IsExternal : Event → Type 0
IsExternal (push_item x) = Unit
IsExternal close_done = Unit
IsExternal _ = ⊥

-- The steps that neither the caller of `Pop` nor its helper makes: those, and the signal of a push.
abbrev pub IsForeign : Event → Type 0
IsForeign signal = Unit
IsForeign e = IsExternal e

-- `Signal` and `Broadcast` reach only a goroutine that is inside `Wait`.
abbrev pub wake_up : Helper → Helper
wake_up parked = woken
wake_up h = h

pub data Step (s : State) : Event → State → Type 0 where
  pushes :
      {q : Queue} (x : Item)
      → push s.queue x ≡ done q
      → Step s (push_item x) (record s { queue = q; signals = s.signals + 1 })
  closes : Step s close_done (record s { is_done = true })
  signals_one :
      (n : ℕ)
      → s.signals ≡ suc n
      → Step s signal (record s { signals = n; helper = wake_up s.helper })
  takes :
      {x : Item} {q : Queue}
      → s.consumer ≡ testing
      → s.queue.items ≢ []
      → pop s.queue ≡ done (x, q)
      → Step s take_item (record s { queue = q; consumer = returned x true })
  launches :
      s.consumer ≡ testing
      → s.queue.items ≡ []
      → Step s launch (record s { consumer = selecting; helper = launched })
  parks : s.helper ≡ launched → Step s park (record s { helper = parked })
  wakes : s.helper ≡ woken → Step s wake (record s { helper = closed })
  resumes :
      s.consumer ≡ selecting
      → s.helper ≡ closed
      → Step s resume (record s { consumer = testing; helper = absent })
  gives_up :
      s.consumer ≡ selecting
      → s.is_done ≡ true
      → Step s give_up (record s { consumer = returned zero_item false; helper = wake_up s.helper })

pub data Reach (s : State) : State → Type 0 where
  here : Reach s s
  next : {t u : State} {e : Event} → Reach s t → Step t e u → Reach s u

-- A call of `Pop` on a queue.
abbrev pub calling : Queue → State
calling q = record { queue = q; consumer = testing; helper = absent; signals = 0; is_done = false }

-- Nothing in the process can move: only another push or the end of the context can.
abbrev pub IsStuck : State → Type 0
IsStuck s = (e : Event) (t : State) → Step s e t → IsExternal e

-- The consumer waits, its helper sleeps, and no signal is under way.
abbrev pub IsAsleep : State → Type 0
IsAsleep s = (s.consumer ≡ selecting) × (s.helper ≡ parked) × (s.signals ≡ 0) × (s.is_done ≡ false)

-- The consumer waits with `done` open, and its helper sleeps; a signal may be under way.
abbrev pub IsWaiting : State → Type 0
IsWaiting s = (s.consumer ≡ selecting) × (s.helper ≡ parked) × (s.is_done ≡ false)

-- A sleeping `Pop` stays asleep until somebody outside acts.
pub asleep-IsStuck : (s : State) → IsAsleep s → IsStuck s
asleep-IsStuck s h e t (pushes x p) = tt
asleep-IsStuck s h e t closes = tt
asleep-IsStuck s h e t (signals_one n p) = absurd (omega arith)
asleep-IsStuck s h e t (takes p q r) = absurd (ground arith)
asleep-IsStuck s h e t (launches p q) = absurd (ground arith)
asleep-IsStuck s h e t (parks p) = absurd (ground arith)
asleep-IsStuck s h e t (wakes p) = absurd (ground arith)
asleep-IsStuck s h e t (resumes p q) = absurd (ground arith)
asleep-IsStuck s h e t (gives_up p q) = absurd (ground arith)
