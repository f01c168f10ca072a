-- ===== src/Startup/Shutdown.antt =====
-- The end of `run` of cmd/gateway-api/main.go: the HTTP server, the main goroutine, and their
-- interleavings.
use rdispatch.Common.{
  ℕ, zero, suc, String, Bool, true, false, Option, none, some, List, [], ◌∷◌, not, ◌&&◌,
  if◌then◌else◌, when, and_then,
}
use rdispatch.Health.Checker.{Checker, new, set_ready}

-- Where the goroutine of `httpServer.ListenAndServe` stands.
pub data Api : Type 0 where
  starting serving closed : Api
  broken : String → Api  -- it has logged this error and ended

-- Where `run` stands.
pub data Main : Type 0 where
  preparing : Main  -- before `SetReady(true)`
  waiting : Main  -- at `<-ctx.Done()`
  leaving : Main  -- past it, before `SetReady(false)`
  unready : Main  -- before `Shutdown`
  draining : Main  -- in `httpServer.Shutdown`
  returned : Main

pub record State : Type 0 where
  pub context_done : Bool
  pub in_shutdown : Bool  -- of `http.Server`, set by `Shutdown`
  pub api : Api
  pub main : Main
  pub checker : Checker
  pub in_flight : ℕ  -- the requests that are being answered
  pub timed_out : Bool  -- `Shutdown` has given up

unfoldable pub start : State
start = record {
  context_done = false;
  in_shutdown = false;
  api = starting;
  main = preparing;
  checker = new;
  in_flight = 0;
  timed_out = false;
}

-- What may happen next.
pub data Action : Type 0 where
  cancels : Action  -- a signal arrives
  listens : Option String → Action  -- `net.Listen`, with its error
  accepts : Option String → Action  -- `Accept`, with its error
  answers : Action  -- a request has been answered
  gets_ready : Action  -- `checker.SetReady(true)`
  wakes : Action  -- `run` gets past `<-ctx.Done()`
  gets_unready : Action  -- `checker.SetReady(false)`
  shuts_down : Action  -- `httpServer.Shutdown` begins
  notices : Action  -- the accept loop finds its listener closed
  drained : Action  -- `Shutdown` returns: every request has been answered
  times_out : Action  -- `Shutdown` returns: its ten seconds are over

abbrev pub is_starting : Api → Bool
is_starting starting = true
is_starting _ = false

abbrev pub is_serving : Api → Bool
is_serving serving = true
is_serving _ = false

abbrev pub is_preparing : Main → Bool
is_preparing preparing = true
is_preparing _ = false

abbrev pub is_waiting : Main → Bool
is_waiting waiting = true
is_waiting _ = false

abbrev pub is_leaving : Main → Bool
is_leaving leaving = true
is_leaving _ = false

abbrev pub is_unready : Main → Bool
is_unready unready = true
is_unready _ = false

abbrev pub is_draining : Main → Bool
is_draining draining = true
is_draining _ = false

abbrev pub is_zero : ℕ → Bool
is_zero zero = true
is_zero (suc n) = false

-- How the goroutine of the server goes on: `http.ErrServerClosed` is not logged.
unfoldable pub listen : Option String → Bool → Api
listen none in_shutdown = if in_shutdown then closed else serving
listen (some e) in_shutdown = if in_shutdown then closed else broken e

unfoldable pub accept : Option String → State → State
accept none s = record s { in_flight = suc s.in_flight }
accept (some e) s = record s { api = broken e }

abbrev pub answered : ℕ → State → Option State
answered zero s = none
answered (suc n) s = some (record s { in_flight = n })

-- The state after an action, if the action is possible.
unfoldable pub act : Action → State → Option State
act cancels s = some (record s { context_done = true })
act (listens e) s = when (is_starting s.api) (record s { api = listen e s.in_shutdown })
act (accepts e) s = when (is_serving s.api && not s.in_shutdown) (accept e s)
act answers s = answered s.in_flight s
act gets_ready s =
    when (is_preparing s.main) (record s { main = waiting; checker = set_ready true s.checker })
act wakes s = when (is_waiting s.main && s.context_done) (record s { main = leaving })
act gets_unready s =
    when (is_leaving s.main) (record s { main = unready; checker = set_ready false s.checker })
act shuts_down s = when (is_unready s.main) (record s { main = draining; in_shutdown = true })
act notices s = when (is_serving s.api && s.in_shutdown) (record s { api = closed })
act drained s = when (is_draining s.main && is_zero s.in_flight) (record s { main = returned })
act times_out s = when (is_draining s.main) (record s { main = returned; timed_out = true })

-- The state after some actions, if each is possible in its turn.
unfoldable pub act_all : List Action → State → Option State
act_all [] s = some s
act_all (a ∷ later) s = and_then (act a s) (act_all later)
