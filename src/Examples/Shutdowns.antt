-- ===== src/Examples/Shutdowns.antt =====
-- The gateway's run from its start to its end.
use rdispatch.Common.{◌≡◌, refl, true, false, none, some, List, [], ◌∷◌, and_then}
use rdispatch.Health.Checker.{set_ready, new}
use rdispatch.Startup.Shutdown.{
  Action, State, cancels, listens, accepts, answers, gets_ready, wakes, gets_unready, shuts_down,
  notices, drained, closed, broken, waiting, returned, start, act, act_all, listen, accept,
}
use rdispatch.Startup.ShutdownLaws.{IsSound, run_actions-IsSound}
use rdispatch.Startup.Unserved.{IsUnserved, broken-IsUnserved}

-- A request is accepted before the signal and answered after it.
abbrev graceful_run : List Action
graceful_run =
    listens none
    ∷ gets_ready
    ∷ accepts none
    ∷ cancels
    ∷ wakes
    ∷ gets_unready
    ∷ shuts_down
    ∷ notices
    ∷ answers
    ∷ drained
    ∷ []

abbrev graceful_end : State
graceful_end = record {
  context_done = true;
  in_shutdown = true;
  api = closed;
  main = returned;
  checker = record { ready = false };
  in_flight = 0;
  timed_out = false;
}

graceful_runs : act_all graceful_run start ≡ some graceful_end
unfolding act_all act start listen accept set_ready new and_then
graceful_runs = refl

run_actions-IsSound_example : IsSound graceful_end
run_actions-IsSound_example = run_actions-IsSound graceful_run graceful_end graceful_runs

-- The port is taken.
abbrev unserved_end : State
unserved_end = record {
  context_done = false;
  in_shutdown = false;
  api = broken "address already in use";
  main = waiting;
  checker = record { ready = true };
  in_flight = 0;
  timed_out = false;
}

unserved_runs :
    act_all (gets_ready ∷ listens (some "address already in use") ∷ []) start ≡ some unserved_end
unfolding act_all act start listen set_ready new and_then
unserved_runs = refl

broken-IsUnserved_example : IsUnserved "address already in use" unserved_end
broken-IsUnserved_example =
    broken-IsUnserved "address already in use" (gets_ready ∷ []) [] unserved_end (tt, tt) tt
      unserved_runs
