-- ===== src/Health/Serving.antt =====
-- `ListenAndServe` of the checker: the server, the goroutine that shuts it down, and their interleavings.
use rdispatch.Common.{
  ℕ, zero, suc, String, Bool, true, false, Option, none, some, List, [], ◌∷◌, not, ◌&&◌,
  if◌then◌else◌, when, and_then,
}

-- How a call of `http.Server.ListenAndServe` ends: it always returns an error.
pub data ServerError : Type 0 where
  server_closed : ServerError  -- `http.ErrServerClosed`
  other_error : String → ServerError

-- Where the call of `srv.ListenAndServe` stands.
pub data Phase : Type 0 where
  starting serving : Phase
  returned : Option String → Phase  -- and `ListenAndServe` of the checker has returned this

-- Where the goroutine stands.
pub data Helper : Type 0 where
  waiting : Helper  -- at `<-ctx.Done()`
  draining : Helper  -- in `srv.Shutdown`
  finished : Helper

pub record State : Type 0 where
  pub context_done : Bool
  pub in_shutdown : Bool  -- of `http.Server`, set by `Shutdown`
  pub phase : Phase
  pub helper : Helper
  pub in_flight : ℕ  -- the requests that are being answered

unfoldable pub start : State
start = record {
  context_done = false;
  in_shutdown = false;
  phase = starting;
  helper = waiting;
  in_flight = 0;
}

-- `if err := srv.ListenAndServe(); err != nil && err != http.ErrServerClosed { return err }; return nil`.
unfoldable pub result : ServerError → Option String
result server_closed = none
result (other_error e) = some e

unfoldable pub return_with : ServerError → State → State
return_with e s = record s { phase = returned (result e) }

-- What may happen next.
pub data Action : Type 0 where
  cancels : Action  -- the context ends
  listens : Option String → Action  -- `net.Listen`, with its error
  accepts : Option String → Action  -- `Accept`, with its error
  answers : Action  -- a request has been answered
  shuts_down : Action  -- the goroutine gets past `<-ctx.Done()` and calls `Shutdown`
  notices : Action  -- the accept loop finds its listener closed
  drained : Action  -- `Shutdown` returns: every request has been answered
  times_out : Action  -- `Shutdown` returns: its five seconds are over

-- `net.Listen`; a server that is shut down does not get there.
unfoldable pub listen : Option String → State → State
listen none s = if s.in_shutdown then return_with server_closed s else record s { phase = serving }
listen (some e) s = return_with (if s.in_shutdown then server_closed else other_error e) s

unfoldable pub accept : Option String → State → State
accept none s = record s { in_flight = suc s.in_flight }
accept (some e) s = return_with (other_error e) s

abbrev pub is_serving : Phase → Bool
is_serving serving = true
is_serving _ = false

abbrev pub is_starting : Phase → Bool
is_starting starting = true
is_starting _ = false

abbrev pub is_waiting : Helper → Bool
is_waiting waiting = true
is_waiting _ = false

abbrev pub is_draining : Helper → Bool
is_draining draining = true
is_draining _ = false

abbrev pub is_zero : ℕ → Bool
is_zero zero = true
is_zero (suc n) = false

abbrev pub answered : ℕ → State → Option State
answered zero s = none
answered (suc n) s = some (record s { in_flight = n })

-- The state after an action, if the action is possible.
unfoldable pub act : Action → State → Option State
act cancels s = some (record s { context_done = true })
act (listens e) s = when (is_starting s.phase) (listen e s)
act (accepts e) s = when (is_serving s.phase && not s.in_shutdown) (accept e s)
act answers s = answered s.in_flight s
act shuts_down s =
    when (is_waiting s.helper && s.context_done)
      (record s { helper = draining; in_shutdown = true })
act notices s = when (is_serving s.phase && s.in_shutdown) (return_with server_closed s)
act drained s = when (is_draining s.helper && is_zero s.in_flight) (record s { helper = finished })
act times_out s = when (is_draining s.helper) (record s { helper = finished })

-- The state after some actions, if each is possible in its turn.
unfoldable pub act_all : List Action → State → Option State
act_all [] s = some s
act_all (a ∷ later) s = and_then (act a s) (act_all later)
