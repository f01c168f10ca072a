-- ===== src/Priority/WaitLaws.antt =====
-- When a blocking `Pop` returns, and when it sleeps.
use rdispatch.Common.{
  ◌<◌, ◌≡◌, ◌≢◌, ◌⊎◌, inl, inr, refl, Bool, true, false, [], ◌∷◌, done, arith, length, Yields-value,
  Yields-at, Bool-cases, List-cases,
}
use rdispatch.Priority.Item.{Item}
use rdispatch.Priority.Queue.{Queue, new, push, sift_up}
use rdispatch.Priority.Push.{IsValid, push-Holds}
use rdispatch.Priority.Pop.{pop-Popped}
use rdispatch.Priority.Wait.{
  Consumer, testing, selecting, returned, Helper, absent, launched, parked, woken, closed, State,
  Event, take_item, launch, park, wake, resume, give_up, IsForeign, Step, pushes, closes,
  signals_one, takes, launches, parks, wakes, resumes, gives_up, Reach, here, next, calling,
  IsStuck, IsWaiting, asleep-IsStuck,
}

-- What holds at every moment of a `Pop`.
pub record Inv (s : State) : Type 0 where
  pub valid : IsValid s.queue
  pub helped : s.consumer ≡ selecting → s.helper ≢ absent
  pub refused : (x : Item) → s.consumer ≡ returned x false → s.is_done ≡ true

pub new-IsValid : IsValid new
unfolding new
new-IsValid c p q = absurd (omega arith)

pub calling-Inv : (q : Queue) → IsValid q → Inv (calling q)
calling-Inv q v = record { valid = v; helped = λ e. absurd (ground arith); refused = λ x e. cc }

pub Step-Inv : {s t : State} {e : Event} → Step s e t → Inv s → Inv t
Step-Inv {s} (pushes x p) v = record {
  valid = (Yields-at (push-Holds s.queue x v.valid) p).0;
  helped = v.helped;
  refused = v.refused;
}
Step-Inv closes v = record { valid = v.valid; helped = v.helped; refused = λ x e. refl }
Step-Inv (signals_one n p) v = record {
  valid = v.valid;
  helped = λ h e. ground (arith, v.helped);
  refused = v.refused;
}
Step-Inv {s} (takes p q r) v =
    let some_left : 0 < length s.queue.items = grind arith in
    record {
      valid = (Yields-at (pop-Popped s.queue v.valid some_left) r).valid;
      helped = λ h e. absurd (ground arith);
      refused = λ x e. cc;
    }
Step-Inv (launches p q) v = record { valid = v.valid; helped = λ h e. cc; refused = λ x e. cc }
Step-Inv (parks p) v = record { valid = v.valid; helped = λ h e. cc; refused = v.refused }
Step-Inv (wakes p) v = record { valid = v.valid; helped = λ h e. cc; refused = v.refused }
Step-Inv (resumes p q) v = record { valid = v.valid; helped = λ h e. cc; refused = λ x e. cc }
Step-Inv (gives_up p q) v = record { valid = v.valid; helped = λ h e. cc; refused = λ x e. q }

pub Reach-Inv : {s t : State} → Inv s → Reach s t → Inv t
Reach-Inv v here = v
Reach-Inv v (next r st) = Step-Inv st (Reach-Inv v r)

-- A step of the caller or of the helper is ready.
abbrev pub CanMove : State → Type 0
CanMove s = (e : Event) × (t : State) × Step s e t × (¬ IsForeign e)

-- The consumer before its test can launch a round or take an item.
testing-CanMove : (s : State) → Inv s → s.consumer ≡ testing → CanMove s
testing-CanMove s v c = elim (List-cases s.queue.items) [
  | inl e ↦ (launch, _, launches c e, λ x. x)
  | inr (x, a, e) ↦
      let some_left : 0 < length s.queue.items = rw e (omega arith) in
      let ((item, q), popped, _) = Yields-value (pop-Popped s.queue v.valid some_left) in
      (take_item, _, takes c (λ h. cc) popped, λ x. x)
]

parked_cases : (s : State) → s.consumer ≡ selecting → s.helper ≡ parked → CanMove s ⊎ IsWaiting s
parked_cases s c h = elim (Bool-cases s.is_done) [
  | inl e ↦ inl (give_up, _, gives_up c e, λ x. x)
  | inr e ↦ inr (c, h, e)
]

selecting_cases :
    (s : State) (h : Helper)
    → s.helper ≡ h
    → Inv s
    → s.consumer ≡ selecting
    → CanMove s ⊎ IsWaiting s
selecting_cases s absent e v c = absurd (v.helped c e)
selecting_cases s launched e v c = inl (park, _, parks e, λ x. x)
selecting_cases s parked e v c = parked_cases s c e
selecting_cases s woken e v c = inl (wake, _, wakes e, λ x. x)
selecting_cases s closed e v c = inl (resume, _, resumes c e, λ x. x)

pub consumer_cases :
    (s : State) (c : Consumer)
    → s.consumer ≡ c
    → Inv s
    → ((x : Item) × (ok : Bool) × (s.consumer ≡ returned x ok)) ⊎ CanMove s ⊎ IsWaiting s
consumer_cases s testing e v = inr (inl (testing-CanMove s v e))
consumer_cases s selecting e v = inr (selecting_cases s s.helper refl v e)
consumer_cases s (returned x ok) e v = inl (x, ok, e)

-- At every moment of a `Pop` on a valid queue, it has returned, or its caller or its helper has a step, or
-- it waits: its helper inside `Wait`, and `done` open. There is no other way to block.
pub pop_progress :
    (q : Queue) (s : State)
    → IsValid q
    → Reach (calling q) s
    → ((x : Item) × (ok : Bool) × (s.consumer ≡ returned x ok)) ⊎ CanMove s ⊎ IsWaiting s
pop_progress q s v r = consumer_cases s s.consumer refl (Reach-Inv (calling-Inv q v) r)

-- `Pop` reports `false` only when `done` is closed.
pub pop_refused :
    (q : Queue) (s : State) (x : Item)
    → IsValid q
    → Reach (calling q) s
    → s.consumer ≡ returned x false
    → s.is_done ≡ true
pop_refused q s x v r e = (Reach-Inv (calling-Inv q v) r).refused x e

pub push-new : (x : Item) → push new x ≡ done (record { items = x ∷ [] })
unfolding push new sift_up
push-new x = refl

-- `Pop` asleep beside an item.
abbrev asleep_with : Item → State
asleep_with x = record {
  queue = record { items = x ∷ [] };
  consumer = selecting;
  helper = parked;
  signals = 0;
  is_done = false;
}

-- The push and its signal come between the launch of the helper and its `Wait`.
lost_signal : (x : Item) → Reach (calling new) (asleep_with x)
unfolding new
lost_signal x =
    let empty : Reach (calling new) (calling new) = here in
    next
      (next (next (next empty (launches refl refl)) (pushes x (push-new x))) (signals_one 0 refl))
      (parks refl)

-- A wakeup can be lost: if the signal of a push comes before the helper's `Wait`, `Pop` ends up
-- asleep with the item in the queue, until another push or the end of the context.
pub lost_wakeup :
    (x : Item)
    → (s : State) × Reach (calling new) s
      × (s.queue.items ≡ x ∷ [])
      × (s.consumer ≡ selecting)
      × IsStuck s
unfolding new
lost_wakeup x = (
  asleep_with x,
  lost_signal x,
  refl,
  refl,
  asleep-IsStuck (asleep_with x) (refl, refl, refl, refl),
)
