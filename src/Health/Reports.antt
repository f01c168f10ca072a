-- ===== src/Health/Reports.antt =====
-- What `ListenAndServe` of the checker returns.
use rdispatch.Common.{
  ℕ, suc, zero, String, Bool, true, false, ◌≡◌, ◌∙◌, ap, ◌⊎◌, inl, inr, Option, none, some, List,
  [], ◌∷◌, not, ◌&&◌, if◌then◌else◌, when, and_then-some,
}
use rdispatch.Health.Serving.{
  Action, cancels, listens, accepts, answers, shuts_down, notices, drained, times_out, State, start,
  act, act_all, serving, returned, draining, finished, listen, accept, return_with, result,
  server_closed, other_error, answered, is_serving, is_starting, is_waiting, is_draining, is_zero,
}
use rdispatch.Health.ServingLaws.{start-IsSound, act_all-IsSound}

-- The action is one of `net.Listen` or `Accept` that fails with `e`.
abbrev pub Fails : String → Action → Type 0
Fails e (listens (some x)) = x ≡ e
Fails e (accepts (some x)) = x ≡ e
Fails e _ = ⊥

-- One of the actions is.
abbrev pub Reported : String → List Action → Type 0
Reported e [] = ⊥
Reported e (a ∷ later) = Fails e a ⊎ Reported e later

when_ends :
    (e : String) (b : Bool) (u t : State) (F : Type 0)
    → (u.phase ≡ returned (some e) → F)
    → when b u ≡ some t
    → t.phase ≡ returned (some e)
    → F
when_ends e true u t F h w p = let same : u ≡ t = cc in h (ap (λ x. x.phase) same ∙ p)
when_ends e false u t F h w p = absurd (let clash : none ≡ some t = w in cc)

-- Where the error of a state comes from.
abbrev Origin : String → Action → State → Type 0
Origin e a s = (s.phase ≡ returned (some e)) ⊎ Fails e a

listens_fails :
    (e : String) (b : Bool) (s : State)
    → (if b then return_with server_closed s else record s { phase = serving }).phase
      ≡ returned (some e)
    → ⊥
unfolding return_with result
listens_fails e true s p = cc
listens_fails e false s p = cc

refused_fails :
    (e x : String) (b : Bool) (s : State)
    → (return_with (if b then server_closed else other_error x) s).phase ≡ returned (some e)
    → x ≡ e
unfolding return_with result
refused_fails e x true s p = absurd cc
refused_fails e x false s p = cc

listen_fails :
    (e : String) (o : Option String) (s : State)
    → (listen o s).phase ≡ returned (some e)
    → Origin e (listens o) s
unfolding listen
listen_fails e none s p = absurd (listens_fails e s.in_shutdown s p)
listen_fails e (some x) s p = inr (refused_fails e x s.in_shutdown s p)

accept_fails :
    (e : String) (o : Option String) (s : State)
    → (accept o s).phase ≡ returned (some e)
    → Origin e (accepts o) s
unfolding accept return_with result
accept_fails e none s p = inl p
accept_fails e (some x) s p = inr cc

answered_fails :
    (e : String) (n : ℕ) (s t : State)
    → answered n s ≡ some t
    → t.phase ≡ returned (some e)
    → s.phase ≡ returned (some e)
answered_fails e zero s t w p = absurd (let clash : none ≡ some t = w in cc)
answered_fails e (suc n) s t w p =
    let same : record s { in_flight = n } ≡ t = cc in ap (λ x. x.phase) same ∙ p

start_runs : (e : String) → start.phase ≡ returned (some e) → ⊥
unfolding start
start_runs e p = cc

act_fails :
    (e : String) (a : Action) (s t : State)
    → act a s ≡ some t
    → t.phase ≡ returned (some e)
    → Origin e a s
unfolding act return_with result
act_fails e cancels s t w p =
    let same : record s { context_done = true } ≡ t = cc in inl (ap (λ x. x.phase) same ∙ p)
act_fails e (listens o) s t w p =
    when_ends e (is_starting s.phase) (listen o s) t _ (listen_fails e o s) w p
act_fails e (accepts o) s t w p =
    when_ends e (is_serving s.phase && not s.in_shutdown) (accept o s) t _ (accept_fails e o s) w p
act_fails e answers s t w p = inl (answered_fails e s.in_flight s t w p)
act_fails e shuts_down s t w p =
    when_ends e (is_waiting s.helper && s.context_done)
      (record s { helper = draining; in_shutdown = true }) t _ (λ x. inl x) w p
act_fails e notices s t w p =
    when_ends e (is_serving s.phase && s.in_shutdown) (return_with server_closed s) t _ (λ x. cc) w
      p
act_fails e drained s t w p =
    when_ends e (is_draining s.helper && is_zero s.in_flight) (record s { helper = finished }) t _
      (λ x. inl x) w p
act_fails e times_out s t w p =
    when_ends e (is_draining s.helper) (record s { helper = finished }) t _ (λ x. inl x) w p

act_all_fails :
    (e : String) (actions : List Action) (s t : State)
    → act_all actions s ≡ some t
    → t.phase ≡ returned (some e)
    → (s.phase ≡ returned (some e)) ⊎ Reported e actions
unfolding act_all
act_all_fails e [] s t w p = let same : s ≡ t = cc in inl (ap (λ x. x.phase) same ∙ p)
act_all_fails e (a ∷ later) s t w p =
    let (u, x, y) = and_then-some (act a s) (act_all later) t w in
    elim (act_all_fails e later u t y p) [
      | inl q ↦ elim (act_fails e a s u x q) [ inl r ↦ inl r | inr r ↦ inr (inl r) ]
      | inr q ↦ inr (inr q)
    ]

-- `ListenAndServe` returns nil only after the context has ended and the server is shut down, and an error
-- only if `net.Listen` or `Accept` has failed with it, in any order of what happens.
pub act_all-Sound :
    (actions : List Action) (t : State)
    → act_all actions start ≡ some t
    → (t.phase ≡ returned none → (t.context_done ≡ true) × (t.in_shutdown ≡ true))
      × ((e : String) → t.phase ≡ returned (some e) → Reported e actions)
act_all-Sound actions t w =
    let sound = act_all-IsSound actions start t start-IsSound w in
    (
      λ p. (sound.after_context (sound.nil_only p), sound.nil_only p),
      λ e p. elim (act_all_fails e actions start t w p) [
        | inl q ↦ absurd (start_runs e q)
        | inr q ↦ q
      ],
    )
