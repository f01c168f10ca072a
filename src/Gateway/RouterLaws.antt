-- ===== src/Gateway/RouterLaws.antt =====
-- Which handler a call reaches, and what any sequence of calls leaves in the queue.
use rdispatch.Common.{
  String, ◌≡◌, ◌⊎◌, refl, ap, sym, ◌∙◌, true, false, Option, none, some, List, [], ◌∷◌, str_eq,
  str_eq_iff, ◌&&◌, Bool-cases, Option-cases, inl, inr, if◌then◌else◌,
}
use rdispatch.Common.Text.{concat}
use rdispatch.Gateway.Router.{
  Endpoint, send_endpoint, health_endpoint, queue_stats_endpoint, Route, below, router, Chi,
}

-- A route of the list.
abbrev pub Listed : Route → List Route → Type 0
Listed r [] = ⊥
Listed r (x ∷ xs) = (r ≡ x) ⊎ Listed r xs

-- What chi does with routes without parameters: it finds the handler of a route by its method and its
-- pattern, and no other.
pub record IsRouting (chi : Chi) : Type 0 where
  pub found : (r : Route) → Listed r router → chi.find router r.method r.pattern ≡ some r.endpoint
  pub missed :
      (m p : String) (e : Endpoint)
      → chi.find router m p ≡ some e
      → Listed (record { method = m; pattern = p; endpoint = e }) router

-- The API of the gateway: the endpoint of a method and a path.
unfoldable pub api : String → String → Option Endpoint
api m p =
    if str_eq m "POST" && str_eq p "/api/v1/notifications"
    then some send_endpoint
    else if str_eq m "GET" && str_eq p "/api/v1/health"
    then some health_endpoint
    else if str_eq m "GET" && str_eq p "/api/v1/queue/stats"
    then some queue_stats_endpoint
    else none

pub both_eq : (m p a b : String) → str_eq m a && str_eq p b ≡ true → (m ≡ a) × (p ≡ b)
both_eq m p a b h = elim (Bool-cases (str_eq m a)) [
  | inl e ↦ ((str_eq_iff m a).0 e, (str_eq_iff p b).0 (rw e at h))
  | inr e ↦ absurd (let h' = rw e at h in cc)
]

api_missed :
    (m p : String) (e : Endpoint)
    → Listed (record { method = m; pattern = p; endpoint = e }) router
    → api m p ≡ some e
unfolding api router below concat
api_missed m p e h = elim h [
  | inl h1 ↦ rw (ap (λ r. r.method) h1, ap (λ r. r.pattern) h1, ap (λ r. r.endpoint) h1) refl
  | inr (inl h2) ↦ rw (ap (λ r. r.method) h2, ap (λ r. r.pattern) h2, ap (λ r. r.endpoint) h2) refl
  | inr (inr (inl h3)) ↦
      rw (ap (λ r. r.method) h3, ap (λ r. r.pattern) h3, ap (λ r. r.endpoint) h3) refl
  | inr (inr (inr h4)) ↦ absurd h4
]

unfound :
    (chi : Chi) (m p : String) (r : Route)
    → IsRouting chi
    → Listed r router
    → chi.find router m p ≡ none
    → str_eq m r.method && str_eq p r.pattern ≡ false
unfound chi m p r i h n = elim (Bool-cases (str_eq m r.method && str_eq p r.pattern)) [
  | inl e ↦
      let (em, ep) = both_eq m p r.method r.pattern e in
      let found = i.found r h in absurd (let clash = rw (em, ep) at n in cc)
  | inr e ↦ e
]

api_unfound :
    (chi : Chi) (m p : String) → IsRouting chi → chi.find router m p ≡ none → api m p ≡ none
unfolding api router below concat
api_unfound chi m p i n =
    rw
      (
        unfound chi m p _ i (inl refl) n,
        unfound chi m p _ i (inr (inl refl)) n,
        unfound chi m p _ i (inr (inr (inl refl))) n,
      )
      refl

-- The router sends each call where the API says.
pub find-api : (chi : Chi) (m p : String) → IsRouting chi → chi.find router m p ≡ api m p
find-api chi m p i = elim (Option-cases (chi.find router m p)) [
  | inl e ↦ e ∙ sym (api_unfound chi m p i e)
  | inr (x, e) ↦ e ∙ sym (api_missed m p x (i.missed m p x e))
]
