-- ===== src/Health/Returns.antt =====
-- That `ListenAndServe` of the checker returns.
use rdispatch.Common.{
  ℕ, true, ◌≡◌, refl, subst, ◌∙◌, ap, sym, none, some, List, [], ◌∷◌, ◌++◌, not, ◌&&◌, when-true,
  and_then, and_then-some, if-true, All,
}
use rdispatch.Health.Serving.{
  Action, listens, shuts_down, notices, State, start, act, act_all, Phase, starting, serving,
  returned, Helper, waiting, draining, finished, listen, return_with, result, server_closed,
  is_serving, is_starting, is_waiting,
}
use rdispatch.Health.ServingLaws.{IsSound, start-IsSound, act_all-IsSound}

-- What the program itself does, with no help from its clients.
abbrev pub Own : Action → Type 0
Own (listens none) = Unit
Own shuts_down = Unit
Own notices = Unit
Own _ = ⊥

-- The server is shut down, and the rest is as it was.
abbrev ShutFrom : State → State → Type 0
ShutFrom s t = (t.in_shutdown ≡ true) × (t.phase ≡ s.phase) × (t.in_flight ≡ s.in_flight)

-- Some actions of the program lead from `s` to such a state.
abbrev Leads : (State → Type 0) → State → Type 0
Leads P s =
    (actions : List Action) × All Own actions × ((t : State) × (act_all actions s ≡ some t) × P t)

-- One action of the program.
Leads-by :
    (P : State → Type 0) (a : Action) (s t : State) → Own a → act a s ≡ some t → P t → Leads P s
unfolding act_all and_then
Leads-by P a s t own e p = (a ∷ [], (own, tt), (t, rw e refl, p))

All-append : (P : Action → Type 0) (xs ys : List Action) → All P xs → All P ys → All P (xs ++ ys)
All-append P [] ys x y = y
All-append P (a ∷ xs) ys (x, xs') y = (x, All-append P xs ys xs' y)

act_all-append :
    (xs ys : List Action) (s u t : State)
    → act_all xs s ≡ some u
    → act_all ys u ≡ some t
    → act_all (xs ++ ys) s ≡ some t
unfolding act_all and_then
act_all-append [] ys s u t x y = let same : s ≡ u = cc in rw same y
act_all-append (a ∷ xs) ys s u t x y =
    let (v, e, f) = and_then-some (act a s) (act_all xs) u x in
    rw e (act_all-append xs ys v u t f y)

shut :
    (s : State) (h : Helper)
    → IsSound s
    → s.helper ≡ h
    → s.context_done ≡ true
    → Leads (ShutFrom s) s
unfolding act act_all
shut s waiting i e c =
    let t : State = record s { helper = draining; in_shutdown = true } in
    Leads-by (ShutFrom s) shuts_down s t tt
      (when-true (is_waiting s.helper && s.context_done) t (rw (e, c) refl)) (refl, refl, refl)
shut s draining i e c = ([], tt, (s, refl, (i.helped ∙ ap (λ h. not (is_waiting h)) e, refl, refl)))
shut s finished i e c = ([], tt, (s, refl, (i.helped ∙ ap (λ h. not (is_waiting h)) e, refl, refl)))

-- The call has returned nil, with `n` requests still being answered.
abbrev pub NilWith : ℕ → State → Type 0
NilWith n t = (t.phase ≡ returned none) × (t.in_flight ≡ n)

-- The call has not returned.
abbrev pub IsRunning : Phase → Type 0
IsRunning (returned o) = ⊥
IsRunning _ = Unit

listen_refused : (s : State) → s.in_shutdown ≡ true → listen none s ≡ return_with server_closed s
unfolding listen
listen_refused s e =
    if-true s.in_shutdown (return_with server_closed s) (record s { phase = serving }) e

close :
    (s : State) (p : Phase)
    → s.phase ≡ p
    → IsRunning p
    → s.in_shutdown ≡ true
    → Leads (NilWith s.in_flight) s
unfolding act return_with result
close s starting e r c =
    Leads-by (NilWith s.in_flight) (listens none) s (return_with server_closed s) tt
      (rw (listen_refused s c) (when-true (is_starting s.phase) _ (rw e refl))) (refl, refl)
close s serving e r c =
    Leads-by (NilWith s.in_flight) notices s (return_with server_closed s) tt
      (when-true (is_serving s.phase && s.in_shutdown) _ (rw (e, c) refl)) (refl, refl)
close s (returned o) e r c = absurd r

-- Once the context has ended, a `ListenAndServe` that has not returned gets to return nil by steps of its
-- own, whatever its clients do: as many requests as before are then still being answered.
pub act_all-returns :
    (actions : List Action) (s : State)
    → act_all actions start ≡ some s
    → s.context_done ≡ true
    → IsRunning s.phase
    → (own : List Action) × All Own own
      × ((t : State) × (act_all own s ≡ some t) × NilWith s.in_flight t)
act_all-returns actions s w c r =
    let sound = act_all-IsSound actions start s start-IsSound w in
    let (xs, xs_own, (u, x, (shut_down, same_phase, same_requests))) =
      shut s s.helper sound refl c in
    let (ys, ys_own, (t, y, (ended, kept))) =
      close u u.phase refl (subst IsRunning (sym same_phase) r) shut_down in
    (
      xs ++ ys,
      All-append Own xs ys xs_own ys_own,
      (t, act_all-append xs ys s u t x y, (ended, kept ∙ same_requests)),
    )
