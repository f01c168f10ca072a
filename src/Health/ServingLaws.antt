-- ===== src/Health/ServingLaws.antt =====
-- When `ListenAndServe` of the checker returns, and with what.
use rdispatch.Common.{
  ℕ, String, Bool, true, false, ◌≡◌, refl, subst, ◌∙◌, Option, none, some, List, [], suc, zero, ◌∷◌,
  not, ◌&&◌, if◌then◌else◌, when-some, and_then-some, and_true,
}
use rdispatch.Health.Serving.{
  Action, cancels, listens, accepts, answers, shuts_down, notices, drained, times_out, State, start,
  act, act_all, serving, returned, Helper, waiting, draining, finished, listen, accept, return_with,
  result, server_closed, other_error, ServerError, answered, is_serving, is_starting, is_waiting,
  is_draining, is_zero,
}

-- What holds at every time.
pub record IsSound (s : State) : Type 0 where
  pub after_context : s.in_shutdown ≡ true → s.context_done ≡ true
  pub helped : s.in_shutdown ≡ not (is_waiting s.helper)
  pub nil_only : s.phase ≡ returned none → s.in_shutdown ≡ true

pub start-IsSound : IsSound start
unfolding start
start-IsSound = record { after_context = λ e. cc; helped = refl; nil_only = λ e. cc }

return_with-IsSound :
    (e : ServerError) (s : State)
    → IsSound s
    → (e ≡ server_closed → s.in_shutdown ≡ true)
    → IsSound (return_with e s)
unfolding return_with result
return_with-IsSound server_closed s i h = record {
  after_context = i.after_context;
  helped = i.helped;
  nil_only = λ e. h refl;
}
return_with-IsSound (other_error e) s i h = record {
  after_context = i.after_context;
  helped = i.helped;
  nil_only = λ x. cc;
}

draining_waits : (h : Helper) → is_draining h ≡ true → not (is_waiting h) ≡ true
draining_waits waiting e = absurd cc
draining_waits draining e = refl
draining_waits finished e = refl

branch-IsSound :
    (b : Bool) (x y : State)
    → (b ≡ true → IsSound x)
    → (b ≡ false → IsSound y)
    → IsSound (if b then x else y)
branch-IsSound true x y hx hy = hx refl
branch-IsSound false x y hx hy = hy refl

refused-IsSound :
    (b : Bool) (e : String) (s : State)
    → s.in_shutdown ≡ b
    → IsSound s
    → IsSound (return_with (if b then server_closed else other_error e) s)
refused-IsSound true e s shut i = return_with-IsSound server_closed s i (λ x. shut)
refused-IsSound false e s shut i = return_with-IsSound (other_error e) s i (λ x. cc)

listen-IsSound : (e : Option String) (s : State) → IsSound s → IsSound (listen e s)
unfolding listen
listen-IsSound none s i =
    branch-IsSound s.in_shutdown (return_with server_closed s) (record s { phase = serving })
      (λ b. return_with-IsSound server_closed s i (λ x. b))
      (λ b. record { after_context = i.after_context; helped = i.helped; nil_only = λ x. cc })
listen-IsSound (some e) s i = refused-IsSound s.in_shutdown e s refl i

accept-IsSound : (e : Option String) (s : State) → IsSound s → IsSound (accept e s)
unfolding accept
accept-IsSound none s i = record {
  after_context = i.after_context;
  helped = i.helped;
  nil_only = i.nil_only;
}
accept-IsSound (some e) s i = return_with-IsSound (other_error e) s i (λ x. cc)

answered-IsSound : (n : ℕ) (s t : State) → IsSound s → answered n s ≡ some t → IsSound t
answered-IsSound zero s t i e = absurd (let clash : none ≡ some t = e in cc)
answered-IsSound (suc n) s t i e =
    let same : record s { in_flight = n } ≡ t = cc in
    subst IsSound same
      (record { after_context = i.after_context; helped = i.helped; nil_only = i.nil_only })

finish-IsSound :
    (s : State) → IsSound s → is_draining s.helper ≡ true → IsSound (record s { helper = finished })
finish-IsSound s i h =
    let shut : s.in_shutdown ≡ true = i.helped ∙ draining_waits s.helper h in
    record { after_context = i.after_context; helped = shut; nil_only = i.nil_only }

act-IsSound : (a : Action) (s t : State) → IsSound s → act a s ≡ some t → IsSound t
unfolding act
act-IsSound cancels s t i e =
    let same : record s { context_done = true } ≡ t = cc in
    subst IsSound same
      (record { after_context = λ x. refl; helped = i.helped; nil_only = i.nil_only })
act-IsSound (listens x) s t i e =
    when-some IsSound (is_starting s.phase) (listen x s) t (λ b. listen-IsSound x s i) e
act-IsSound (accepts x) s t i e =
    when-some IsSound (is_serving s.phase && not s.in_shutdown) (accept x s) t
      (λ b. accept-IsSound x s i) e
act-IsSound answers s t i e = answered-IsSound s.in_flight s t i e
act-IsSound shuts_down s t i e =
    when-some IsSound (is_waiting s.helper && s.context_done)
      (record s { helper = draining; in_shutdown = true }) t
      (λ b. record {
        after_context = λ x. (and_true (is_waiting s.helper) s.context_done b).1;
        helped = refl;
        nil_only = λ x. refl;
      })
      e
act-IsSound notices s t i e =
    when-some IsSound (is_serving s.phase && s.in_shutdown) (return_with server_closed s) t
      (λ b.
        return_with-IsSound server_closed s i
          λ x. (and_true (is_serving s.phase) s.in_shutdown b).1)
      e
act-IsSound drained s t i e =
    when-some IsSound (is_draining s.helper && is_zero s.in_flight) (record s { helper = finished })
      t (λ b. finish-IsSound s i (and_true (is_draining s.helper) (is_zero s.in_flight) b).0) e
act-IsSound times_out s t i e =
    when-some IsSound (is_draining s.helper) (record s { helper = finished }) t
      (λ b. finish-IsSound s i b) e

pub act_all-IsSound :
    (actions : List Action) (s t : State) → IsSound s → act_all actions s ≡ some t → IsSound t
unfolding act_all
act_all-IsSound [] s t i e = let same : s ≡ t = cc in subst IsSound same i
act_all-IsSound (a ∷ later) s t i e =
    let (u, x, y) = and_then-some (act a s) (act_all later) t e in
    act_all-IsSound later u t (act-IsSound a s u i x) y
