-- ===== src/Examples/Loops.antt =====
-- `drainQueue` of the gateway beside a pusher.
use rdispatch.Common.{◌≡◌, ◌⊎◌, refl, true, false, [], ◌∷◌, ◌++◌, Perm}
use rdispatch.Priority.Queue.{new, push, pop, sift_up}
use rdispatch.Priority.Wait.{
  testing, Helper, launches, parks, pushes, signals_one, takes, wakes, resumes, push_item, signal,
  launch, park, wake, resume, take_item, IsWaiting,
}
use rdispatch.Priority.WaitLaws.{new-IsValid}
use rdispatch.Gateway.Loop.{Loop, start, pops, publishes, Reach, here, next, has_returned}
use rdispatch.Gateway.Loop.Service.{Served, service_of, drain-Served}
use rdispatch.Gateway.Loop.Balance.{in_hand, drain-Balanced}
use rdispatch.Gateway.Loop.End.{Goes, drain_progress, left_behind}
use rdispatch.Examples.Queues.{urgent}

-- The item has gone through `Pop` and is published.
abbrev forwarded : Loop
forwarded = record {
  pop = record {
    queue = new;
    consumer = testing;
    helper = Helper.absent;
    signals = 0;
    is_done = false;
  };
  published = urgent ∷ [];
  arrived = urgent ∷ [];
}

forwarded-Reach : Reach (start new) forwarded
unfolding new push pop sift_up
forwarded-Reach =
    let empty : Reach (start new) (start new) = here in
    let parked = next (next empty (pops launch (launches refl refl))) (pops park (parks refl)) in
    let signalled =
      next (next parked (pops (push_item urgent) (pushes urgent refl)))
        (pops signal (signals_one 0 refl)) in
    let awake = next (next signalled (pops wake (wakes refl))) (pops resume (resumes refl refl)) in
    next (next awake (pops take_item (takes refl (λ e. cc) refl))) (publishes urgent refl)

drain-Served_example : Served (service_of (start new)) (service_of forwarded)
drain-Served_example = drain-Served new forwarded new-IsValid forwarded-Reach

drain-Balanced_example :
    Perm
      (forwarded.published ++ (in_hand forwarded.pop.consumer ++ forwarded.pop.queue.items))
      (forwarded.arrived ++ new.items)
drain-Balanced_example = drain-Balanced new forwarded new-IsValid forwarded-Reach

drain_progress_example :
    (has_returned forwarded.pop.consumer ≡ true) ⊎ Goes forwarded ⊎ IsWaiting forwarded.pop
drain_progress_example = drain_progress new forwarded new-IsValid forwarded-Reach

left_behind_example :
    (s : Loop) × Reach (start new) s
    × (s.pop.queue.items ≡ urgent ∷ [])
    × (s.pop.signals ≡ 0)
    × (s.pop.is_done ≡ false)
    × ((t : Loop) × Reach s t
        × (has_returned t.pop.consumer ≡ true)
        × (t.pop.queue.items ≡ urgent ∷ [])
        × (t.published ≡ []))
left_behind_example = left_behind urgent
