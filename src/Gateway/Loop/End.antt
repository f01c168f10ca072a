-- ===== src/Gateway/Loop/End.antt =====
-- When `drainQueue` can go on, and how it ends.
use rdispatch.Common.{◌≡◌, refl, true, false, [], ◌∷◌, ◌⊎◌, inl, inr, Bool}
use rdispatch.Priority.Item.{Item, zero_item}
use rdispatch.Priority.Queue.{Queue, new}
use rdispatch.Priority.Push.{IsValid}
use rdispatch.Priority.Wait.{
  returned, selecting, Helper, IsForeign, IsWaiting, push_item, close_done, signal, launch, park,
  give_up, pushes, closes, signals_one, launches, parks, gives_up,
}
use rdispatch.Priority.WaitLaws.{calling-Inv, consumer_cases, push-new}
use rdispatch.Gateway.Loop.{
  Loop, start, Step, pops, publishes, fails, Reach, here, next, has_returned,
}
use rdispatch.Gateway.Loop.Service.{Reach-Served}

-- A step of `drainQueue` or of the helper of its `Pop`: no push, no signal, and not the end of the context.
abbrev pub IsOwn : {s t : Loop} → Step s t → Type 0
IsOwn (pops e p) = ¬ IsForeign e
IsOwn (publishes x e) = Unit
IsOwn (fails x e p) = Unit

abbrev pub Goes : Loop → Type 0
Goes s = (t : Loop) × (st : Step s t) × IsOwn st

returned_cases :
    (s : Loop) (x : Item) (ok : Bool)
    → s.pop.consumer ≡ returned x ok
    → (has_returned s.pop.consumer ≡ true) ⊎ Goes s ⊎ IsWaiting s.pop
returned_cases s x true e = inr (inl (_, publishes x e, tt))
returned_cases s x false e = inl (rw e refl)

-- At every moment `drainQueue` on a valid queue has returned, or it or the helper of its `Pop` has a step, or
-- it waits in a `Pop` with the helper inside `Wait` and `done` open.
pub drain_progress :
    (q : Queue) (s : Loop)
    → IsValid q
    → Reach (start q) s
    → (has_returned s.pop.consumer ≡ true) ⊎ Goes s ⊎ IsWaiting s.pop
drain_progress q s v r =
    elim (consumer_cases s.pop s.pop.consumer refl (Reach-Served (calling-Inv q v) r).0) [
      | inl (x, ok, e) ↦ returned_cases s x ok e
      | inr (inl (e, t, st, own)) ↦ inr (inl (_, pops e st, own))
      | inr (inr sleeps) ↦ inr (inr sleeps)
    ]

-- `Pop` waits beside an item whose signal has come.
abbrev beside : Item → Bool → Loop
beside x is_done = record {
  pop = record {
    queue = record { items = x ∷ [] };
    consumer = selecting;
    helper = Helper.woken;
    signals = 0;
    is_done = is_done;
  };
  published = [];
  arrived = x ∷ [];
}

-- The loop has returned beside that item.
abbrev past : Item → Loop
past x = record (beside x true) {
  pop = record (beside x true).pop { consumer = returned zero_item false };
}

waits_beside : (x : Item) → Reach (start new) (beside x false)
unfolding new
waits_beside x =
    let empty : Reach (start new) (start new) = here in
    next
      (next (next (next empty (pops launch (launches refl refl))) (pops park (parks refl)))
        (pops (push_item x) (pushes x (push-new x))))
      (pops signal (signals_one 0 refl))

leaves_beside : (x : Item) → Reach (beside x false) (past x)
leaves_beside x =
    let here_still : Reach (beside x false) (beside x false) = here in
    next (next here_still (pops close_done closes)) (pops give_up (gives_up refl refl))

-- An item can be left behind: it is queued and its signal has been sent while the context goes on, and yet
-- `drainQueue` returns with it in the queue, since the `select` of `Pop` may choose `done`.
pub left_behind :
    (x : Item)
    → (s : Loop) × Reach (start new) s
      × (s.pop.queue.items ≡ x ∷ [])
      × (s.pop.signals ≡ 0)
      × (s.pop.is_done ≡ false)
      × ((t : Loop) × Reach s t
          × (has_returned t.pop.consumer ≡ true)
          × (t.pop.queue.items ≡ x ∷ [])
          × (t.published ≡ []))
unfolding new
left_behind x =
    (beside x false, waits_beside x, refl, refl, refl, (past x, leaves_beside x, refl, refl, refl))
