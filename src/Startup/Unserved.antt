-- ===== src/Startup/Unserved.antt =====
-- A gateway whose HTTP server cannot listen.
use rdispatch.Common.{
  Option, String, ◌∙◌, subst, when-some, Bool, true, false, ◌≡◌, refl, ap, none, some, List, [],
  ◌∷◌, ◌++◌, not, ◌&&◌, when, and_then-some, All,
}
use rdispatch.Health.Checker.{set_ready, new}
use rdispatch.Startup.Shutdown.{
  Api, starting, Main, preparing, waiting, leaving, unready, draining, returned, State, start,
  Action, cancels, listens, accepts, answers, gets_ready, wakes, gets_unready, shuts_down, notices,
  drained, times_out, is_starting, is_serving, is_preparing, is_waiting, is_leaving, is_unready,
  is_draining, is_zero, listen, act, act_all,
}

-- No signal.
abbrev pub IsQuiet : Action → Type 0
IsQuiet cancels = ⊥
IsQuiet _ = Unit

-- Where `run` is before a signal: not yet ready, or at its wait.
abbrev pub is_up : Main → Bool
is_up preparing = true
is_up waiting = true
is_up _ = false

-- Nobody has asked the process to end, `run` is on its way to its wait or at it, the probe says ready exactly
-- in the wait, and no request is being answered. The goroutine of the server is where `api` says.
pub record IsIdle (api : Api) (s : State) : Type 0 where
  pub server : s.api ≡ api
  pub unasked : s.context_done ≡ false
  pub up : is_up s.main ≡ true
  pub ready : s.checker.ready ≡ is_waiting s.main
  pub unshut : s.in_shutdown ≡ false
  pub idle : s.in_flight ≡ 0

-- Before `net.Listen`, with no signal.
abbrev pub IsBefore : Action → Type 0
IsBefore cancels = ⊥
IsBefore (listens x) = ⊥
IsBefore _ = Unit

-- The server has ended with an error.
abbrev pub IsUnserved : String → State → Type 0
IsUnserved e = IsIdle (Api.broken e)

impossible : {P : Type 0} (b : Bool) (u t : State) → b ≡ false → when b u ≡ some t → P
impossible true u t n e = absurd cc
impossible false u t n e = absurd (let clash : none ≡ some t = e in cc)

and_false : (a b : Bool) → a ≡ false → a && b ≡ false
and_false true b e = absurd cc
and_false false b e = refl

and_false_right : (a b : Bool) → b ≡ false → a && b ≡ false
and_false_right true b e = e
and_false_right false b e = refl

-- What `run` cannot be at before a signal.
not_past :
    (m : Main)
    → is_up m ≡ true
    → (is_leaving m ≡ false) × (is_unready m ≡ false) × (is_draining m ≡ false)
not_past preparing e = (refl, refl, refl)
not_past waiting e = (refl, refl, refl)
not_past leaving e = absurd cc
not_past unready e = absurd cc
not_past draining e = absurd cc
not_past returned e = absurd cc

-- Whatever but the signal happens, apart from the goroutine of a server that does not serve.
act-IsIdle :
    (api : Api) (a : Action) (s t : State)
    → is_serving api ≡ false
    → ((x : Option String) → a ≡ listens x → is_starting api ≡ false)
    → IsQuiet a
    → IsIdle api s
    → act a s ≡ some t
    → IsIdle api t
unfolding act set_ready
act-IsIdle api cancels s t n m q i h = absurd q
act-IsIdle api (listens x) s t n m q i h =
    impossible (is_starting s.api) _ t (ap is_starting i.server ∙ m x refl) h
act-IsIdle api (accepts x) s t n m q i h =
    impossible (is_serving s.api && not s.in_shutdown) _ t
      (and_false (is_serving s.api) (not s.in_shutdown) (ap is_serving i.server ∙ n)) h
act-IsIdle api answers s t n m q i h = absurd (let clash : none ≡ some t = rw i.idle at h in cc)
act-IsIdle api gets_ready s t n m q i h =
    when-some (IsIdle api) (is_preparing s.main) _ t
      (λ b. record {
        server = i.server;
        unasked = i.unasked;
        up = refl;
        ready = refl;
        unshut = i.unshut;
        idle = i.idle;
      })
      h
act-IsIdle api wakes s t n m q i h =
    impossible (is_waiting s.main && s.context_done) _ t
      (and_false_right (is_waiting s.main) s.context_done i.unasked) h
act-IsIdle api gets_unready s t n m q i h =
    impossible (is_leaving s.main) _ t (not_past s.main i.up).0 h
act-IsIdle api shuts_down s t n m q i h =
    impossible (is_unready s.main) _ t (not_past s.main i.up).1 h
act-IsIdle api notices s t n m q i h =
    impossible (is_serving s.api && s.in_shutdown) _ t
      (and_false (is_serving s.api) s.in_shutdown (ap is_serving i.server ∙ n)) h
act-IsIdle api drained s t n m q i h =
    impossible (is_draining s.main && is_zero s.in_flight) _ t
      (and_false (is_draining s.main) (is_zero s.in_flight) (not_past s.main i.up).2) h
act-IsIdle api times_out s t n m q i h =
    impossible (is_draining s.main) _ t (not_past s.main i.up).2 h

before-IsIdle :
    (a : Action) (s t : State)
    → IsBefore a
    → IsIdle starting s
    → act a s ≡ some t
    → IsIdle starting t
before-IsIdle cancels s t q i h = absurd q
before-IsIdle (listens x) s t q i h = absurd q
before-IsIdle (accepts x) s t q i h = act-IsIdle starting (accepts x) s t refl (λ y e. cc) tt i h
before-IsIdle answers s t q i h = act-IsIdle starting answers s t refl (λ y e. cc) tt i h
before-IsIdle gets_ready s t q i h = act-IsIdle starting gets_ready s t refl (λ y e. cc) tt i h
before-IsIdle wakes s t q i h = act-IsIdle starting wakes s t refl (λ y e. cc) tt i h
before-IsIdle gets_unready s t q i h = act-IsIdle starting gets_unready s t refl (λ y e. cc) tt i h
before-IsIdle shuts_down s t q i h = act-IsIdle starting shuts_down s t refl (λ y e. cc) tt i h
before-IsIdle notices s t q i h = act-IsIdle starting notices s t refl (λ y e. cc) tt i h
before-IsIdle drained s t q i h = act-IsIdle starting drained s t refl (λ y e. cc) tt i h
before-IsIdle times_out s t q i h = act-IsIdle starting times_out s t refl (λ y e. cc) tt i h

after-IsUnserved :
    (e : String) (actions : List Action) (s t : State)
    → All IsQuiet actions
    → IsUnserved e s
    → act_all actions s ≡ some t
    → IsUnserved e t
unfolding act_all
after-IsUnserved e [] s t q i h = let same : s ≡ t = cc in subst (IsUnserved e) same i
after-IsUnserved e (a ∷ later) s t (q, qs) i h =
    let (u, x, y) = and_then-some (act a s) (act_all later) t h in
    after-IsUnserved e later u t qs (act-IsIdle (Api.broken e) a s u refl (λ y e. refl) q i x) y

failed-IsUnserved :
    (e : String) (s t : State)
    → IsIdle starting s
    → act (listens (some e)) s ≡ some t
    → IsUnserved e t
unfolding act listen
failed-IsUnserved e s t i h =
    when-some (IsUnserved e) (is_starting s.api) _ t
      (λ b. record {
        server = rw i.unshut refl;
        unasked = i.unasked;
        up = i.up;
        ready = i.ready;
        unshut = i.unshut;
        idle = i.idle;
      })
      h

from-IsUnserved :
    (e : String) (before after : List Action) (s t : State)
    → All IsBefore before
    → All IsQuiet after
    → IsIdle starting s
    → act_all (before ++ listens (some e) ∷ after) s ≡ some t
    → IsUnserved e t
unfolding act_all
from-IsUnserved e [] after s t b q i h =
    let (u, x, y) = and_then-some (act (listens (some e)) s) (act_all after) t h in
    after-IsUnserved e after u t q (failed-IsUnserved e s u i x) y
from-IsUnserved e (a ∷ before) after s t (b, bs) q i h =
    let (u, x, y) = and_then-some (act a s) (act_all (before ++ listens (some e) ∷ after)) t h in
    from-IsUnserved e before after u t bs q (before-IsIdle a s u b i x) y

-- If `net.Listen` of the gateway's HTTP server fails and no signal has arrived, then in whatever order that
-- and the rest happens the process stays up until one does: the server has ended with that error, no request
-- is being answered, `run` is before `SetReady(true)` or at its wait, and the probe says that the gateway is
-- ready exactly at the wait.
pub broken-IsUnserved :
    (e : String) (before after : List Action) (t : State)
    → All IsBefore before
    → All IsQuiet after
    → act_all (before ++ listens (some e) ∷ after) start ≡ some t
    → IsUnserved e t
unfolding start new
broken-IsUnserved e before after t b q h =
    from-IsUnserved e before after start t b q
      (record {
        server = refl;
        unasked = refl;
        up = refl;
        ready = refl;
        unshut = refl;
        idle = refl;
      })
      h
