-- ===== src/Health/Probes.antt =====
-- What the probes answer in the life of a service.
use rdispatch.Common.{
  ℕ, Bool, false, List, [], ◌∷◌, ◌≡◌, refl, ap, Bool-cases, inl, inr, if◌then◌else◌,
}
use rdispatch.Health.Checker.{
  Checker, new, set_ready, handle_liveness, handle_readiness, is_ready, write_json,
}

pub data Event : Type 0 where
  sets : Bool → Event
  probes_liveness : Event
  probes_readiness : Event

-- The checker that an event leaves, with the answers that the probes get, the first one first.
unfoldable pub serve : List Event → Checker → List ℕ × Checker
serve [] c = ([], c)
serve (sets b ∷ es) c = serve es (set_ready b c)
serve (probes_liveness ∷ es) c =
    let (answers, d) = serve es c in ((handle_liveness c).code ∷ answers, d)
serve (probes_readiness ∷ es) c =
    let (answers, d) = serve es c in ((handle_readiness c).code ∷ answers, d)

-- The codes that the probes are promised while the flag that was set last is `b`.
unfoldable pub promised : Bool → List Event → List ℕ
promised b [] = []
promised b (sets b' ∷ es) = promised b' es
promised b (probes_liveness ∷ es) = 200 ∷ promised b es
promised b (probes_readiness ∷ es) = (if b then 200 else 503) ∷ promised b es

readiness_code : (c : Checker) → (handle_readiness c).code ≡ (if is_ready c then 200 else 503)
unfolding handle_readiness write_json
readiness_code c = elim (Bool-cases (is_ready c)) [ inl e ↦ rw e refl | inr e ↦ rw e refl ]

serve-promised_from : (es : List Event) (c : Checker) → (serve es c).0 ≡ promised c.ready es
unfolding serve promised set_ready handle_liveness handle_readiness is_ready write_json
serve-promised_from [] c = refl
serve-promised_from (sets b ∷ es) c = serve-promised_from es (set_ready b c)
serve-promised_from (probes_liveness ∷ es) c = ap (◌∷◌ 200) (serve-promised_from es c)
serve-promised_from (probes_readiness ∷ es) c = rw (readiness_code c, serve-promised_from es c) refl

-- From the start and for any order of `SetReady` calls and probes, every liveness probe gets 200, and a
-- readiness probe gets 200 exactly if the last `SetReady` before it set the flag, and 503 otherwise.
pub serve-promised : (es : List Event) → (serve es new).0 ≡ promised false es
unfolding new
serve-promised es = serve-promised_from es new
