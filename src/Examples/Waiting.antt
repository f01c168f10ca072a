-- ===== src/Examples/Waiting.antt =====
-- The blocking `Pop` of internal/gateway/priority at work.
use rdispatch.Common.{◌≡◌, refl, true, false, [], ◌∷◌}
use rdispatch.Priority.Item.{zero_item}
use rdispatch.Priority.Queue.{new, push, sift_up}
use rdispatch.Priority.Wait.{
  selecting, returned, State, launches, parks, pushes, signals_one, closes, gives_up, Reach, here,
  next, calling, IsStuck, Helper,
}
use rdispatch.Priority.WaitLaws.{lost_wakeup}
use rdispatch.Examples.Queues.{urgent}

-- `Pop` on an empty queue whose context ends.
abbrev cut : State
cut = record {
  queue = new;
  consumer = returned zero_item false;
  helper = Helper.launched;
  signals = 0;
  is_done = true;
}

cut-Reach : Reach (calling new) cut
unfolding new
cut-Reach =
    let empty : Reach (calling new) (calling new) = here in
    next (next (next empty (launches refl refl)) closes) (gives_up refl refl)

lost_wakeup_example :
    (s : State) × Reach (calling new) s
    × (s.queue.items ≡ urgent ∷ [])
    × (s.consumer ≡ selecting)
    × IsStuck s
lost_wakeup_example = lost_wakeup urgent

-- A push signals a parked helper.
abbrev woken_up : State
woken_up = record {
  queue = record { items = urgent ∷ [] };
  consumer = selecting;
  helper = Helper.woken;
  signals = 0;
  is_done = false;
}

woken_up-Reach : Reach (calling new) woken_up
unfolding new push sift_up
woken_up-Reach =
    let empty : Reach (calling new) (calling new) = here in
    next (next (next (next empty (launches refl refl)) (parks refl)) (pushes urgent refl))
      (signals_one 0 refl)
