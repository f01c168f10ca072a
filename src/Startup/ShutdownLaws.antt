-- ===== src/Startup/ShutdownLaws.antt =====
-- What holds while the gateway runs, and when it has returned.
use rdispatch.Common.{
  ℕ, zero, suc, String, Bool, true, false, ◌≡◌, refl, subst, ap, ◌∙◌, Option, none, some, List, [],
  ◌∷◌, not, ◌&&◌, when-some, and_then-some, and_true,
}
use rdispatch.Health.Checker.{new, set_ready}
use rdispatch.Startup.Shutdown.{
  Api, Main, preparing, waiting, leaving, unready, draining, returned, State, start, Action,
  cancels, listens, accepts, answers, gets_ready, wakes, gets_unready, shuts_down, notices, drained,
  times_out, is_starting, is_serving, is_preparing, is_waiting, is_leaving, is_unready, is_draining,
  is_zero, listen, accept, answered, act, act_all,
}

-- `run` is between `SetReady(true)` and `SetReady(false)`.
abbrev pub is_ready : Main → Bool
is_ready preparing = false
is_ready waiting = true
is_ready leaving = true
is_ready unready = false
is_ready draining = false
is_ready returned = false

-- `run` is past `<-ctx.Done()`.
abbrev pub has_woken : Main → Bool
has_woken preparing = false
has_woken waiting = false
has_woken leaving = true
has_woken unready = true
has_woken draining = true
has_woken returned = true

-- `run` has called `Shutdown`.
abbrev pub has_ended : Main → Bool
has_ended preparing = false
has_ended waiting = false
has_ended leaving = false
has_ended unready = false
has_ended draining = true
has_ended returned = true

-- The readiness flag is set exactly from `SetReady(true)` to `SetReady(false)`; `run` comes past its wait
-- only after the context has ended; the server is shut down exactly from `Shutdown` on; and when `run` has
-- returned no request is left, unless `Shutdown` has given up.
pub record IsSound (s : State) : Type 0 where
  pub ready : s.checker.ready ≡ is_ready s.main
  pub shut : s.in_shutdown ≡ has_ended s.main
  pub asked : has_woken s.main ≡ true → s.context_done ≡ true
  pub answered_all : s.main ≡ returned → s.timed_out ≡ false → s.in_flight ≡ 0

start-IsSound : IsSound start
unfolding start new
start-IsSound = record { ready = refl; shut = refl; asked = λ e. cc; answered_all = λ e f. refl }

zero_of : (n : ℕ) → is_zero n ≡ true → n ≡ 0
zero_of zero e = refl
zero_of (suc n) e = absurd cc

at_preparing : (m : Main) → is_preparing m ≡ true → has_ended m ≡ false
at_preparing preparing e = refl
at_preparing waiting e = absurd cc
at_preparing leaving e = absurd cc
at_preparing unready e = absurd cc
at_preparing draining e = absurd cc
at_preparing returned e = absurd cc

at_wait : (m : Main) → is_waiting m ≡ true → (is_ready m ≡ true) × (has_ended m ≡ false)
at_wait preparing e = absurd cc
at_wait waiting e = (refl, refl)
at_wait leaving e = absurd cc
at_wait unready e = absurd cc
at_wait draining e = absurd cc
at_wait returned e = absurd cc

at_leave : (m : Main) → is_leaving m ≡ true → (has_ended m ≡ false) × (has_woken m ≡ true)
at_leave preparing e = absurd cc
at_leave waiting e = absurd cc
at_leave leaving e = (refl, refl)
at_leave unready e = absurd cc
at_leave draining e = absurd cc
at_leave returned e = absurd cc

at_unready : (m : Main) → is_unready m ≡ true → (is_ready m ≡ false) × (has_woken m ≡ true)
at_unready preparing e = absurd cc
at_unready waiting e = absurd cc
at_unready leaving e = absurd cc
at_unready unready e = (refl, refl)
at_unready draining e = absurd cc
at_unready returned e = absurd cc

at_drain :
    (m : Main)
    → is_draining m ≡ true
    → (is_ready m ≡ false) × (has_ended m ≡ true) × (has_woken m ≡ true)
at_drain preparing e = absurd cc
at_drain waiting e = absurd cc
at_drain leaving e = absurd cc
at_drain unready e = absurd cc
at_drain draining e = (refl, refl, refl)
at_drain returned e = absurd cc

answered-IsSound :
    (n : ℕ) (s t : State) → s.in_flight ≡ n → IsSound s → answered n s ≡ some t → IsSound t
answered-IsSound zero s t f i e = absurd (let clash : none ≡ some t = e in cc)
answered-IsSound (suc n) s t f i e =
    let same : record s { in_flight = n } ≡ t = cc in
    subst IsSound same (record {
      ready = i.ready;
      shut = i.shut;
      asked = i.asked;
      answered_all = λ r o. absurd (let none_left = i.answered_all r o in cc);
    })

accept-IsSound :
    (e : Option String) (s : State) → not s.in_shutdown ≡ true → IsSound s → IsSound (accept e s)
unfolding accept
accept-IsSound none s unshut i = record {
  ready = i.ready;
  shut = i.shut;
  asked = i.asked;
  answered_all = λ r o.
      absurd (
        let shut = i.shut ∙ ap has_ended r in
        let clash : not true ≡ true = rw shut at unshut in cc);
}
accept-IsSound (some e) s unshut i = record {
  ready = i.ready;
  shut = i.shut;
  asked = i.asked;
  answered_all = i.answered_all;
}

act-IsSound : (a : Action) (s t : State) → IsSound s → act a s ≡ some t → IsSound t
unfolding act set_ready
act-IsSound cancels s t i e =
    let same : record s { context_done = true } ≡ t = cc in
    subst IsSound same
      (record { ready = i.ready; shut = i.shut; asked = λ x. refl; answered_all = i.answered_all })
act-IsSound (listens x) s t i e =
    when-some IsSound (is_starting s.api) (record s { api = listen x s.in_shutdown }) t
      (λ b. record {
        ready = i.ready;
        shut = i.shut;
        asked = i.asked;
        answered_all = i.answered_all;
      })
      e
act-IsSound (accepts x) s t i e =
    when-some IsSound (is_serving s.api && not s.in_shutdown) (accept x s) t
      (λ b. accept-IsSound x s (and_true (is_serving s.api) (not s.in_shutdown) b).1 i) e
act-IsSound answers s t i e = answered-IsSound s.in_flight s t refl i e
act-IsSound gets_ready s t i e =
    when-some IsSound (is_preparing s.main)
      (record s { main = waiting; checker = set_ready true s.checker }) t
      (λ b. record {
        ready = refl;
        shut = i.shut ∙ at_preparing s.main b;
        asked = λ x. absurd cc;
        answered_all = λ r o. absurd cc;
      })
      e
act-IsSound wakes s t i e =
    when-some IsSound (is_waiting s.main && s.context_done) (record s { main = leaving }) t
      (λ b.
        let (m, d) = and_true (is_waiting s.main) s.context_done b in
        let (r, n) = at_wait s.main m in
        record {
          ready = i.ready ∙ r;
          shut = i.shut ∙ n;
          asked = λ x. d;
          answered_all = λ r o. absurd cc;
        })
      e
act-IsSound gets_unready s t i e =
    when-some IsSound (is_leaving s.main)
      (record s { main = unready; checker = set_ready false s.checker }) t
      (λ m.
        let (n, w) = at_leave s.main m in
        record {
          ready = refl;
          shut = i.shut ∙ n;
          asked = λ x. i.asked w;
          answered_all = λ r o. absurd cc;
        })
      e
act-IsSound shuts_down s t i e =
    when-some IsSound (is_unready s.main) (record s { main = draining; in_shutdown = true }) t
      (λ m.
        let (r, w) = at_unready s.main m in
        record {
          ready = i.ready ∙ r;
          shut = refl;
          asked = λ x. i.asked w;
          answered_all = λ r o. absurd cc;
        })
      e
act-IsSound notices s t i e =
    when-some IsSound (is_serving s.api && s.in_shutdown) (record s { api = Api.closed }) t
      (λ b. record {
        ready = i.ready;
        shut = i.shut;
        asked = i.asked;
        answered_all = i.answered_all;
      })
      e
act-IsSound drained s t i e =
    when-some IsSound (is_draining s.main && is_zero s.in_flight) (record s { main = returned }) t
      (λ b.
        let (m, n) = and_true (is_draining s.main) (is_zero s.in_flight) b in
        let (r, ended, w) = at_drain s.main m in
        record {
          ready = i.ready ∙ r;
          shut = i.shut ∙ ended;
          asked = λ x. i.asked w;
          answered_all = λ r o. zero_of s.in_flight n;
        })
      e
act-IsSound times_out s t i e =
    when-some IsSound (is_draining s.main) (record s { main = returned; timed_out = true }) t
      (λ m.
        let (r, ended, w) = at_drain s.main m in
        record {
          ready = i.ready ∙ r;
          shut = i.shut ∙ ended;
          asked = λ x. i.asked w;
          answered_all = λ r o. absurd cc;
        })
      e

act_all-IsSound :
    (actions : List Action) (s t : State) → IsSound s → act_all actions s ≡ some t → IsSound t
unfolding act_all
act_all-IsSound [] s t i e = let same : s ≡ t = cc in subst IsSound same i
act_all-IsSound (a ∷ later) s t i e =
    let (u, x, y) = and_then-some (act a s) (act_all later) t e in
    act_all-IsSound later u t (act-IsSound a s u i x) y

-- In any order of what happens, the gateway is ready exactly from its `SetReady(true)` until, after the end
-- of its context, it has set itself not ready, and it calls `Shutdown` only after that; when `run` has
-- returned, every request that was accepted has been answered, unless the ten seconds of `Shutdown` were
-- over.
pub run_actions-IsSound :
    (actions : List Action) (t : State) → act_all actions start ≡ some t → IsSound t
run_actions-IsSound actions t e = act_all-IsSound actions start t start-IsSound e
