-- ===== src/Mutex/Linear.antt =====
-- Every run of the goroutines is a sequence of whole calls, in the order in which they unlock.
use rdispatch.Common.{
  ℕ, ◌≡◌, sym, ◌∙◌, subst, none, done, List, [], ◌∷◌, Yields, Yields-value, Yields-at,
}
use rdispatch.Mutex.Program.{Program, perform}
use rdispatch.Mutex.Threads.{inside, State, Reach, starting}
use rdispatch.Mutex.Invariant.{Replays, Reach-Inv}

module _ {S C A : Type 0} (body : C → Program S A) where
  -- However the goroutines are interleaved, while the lock is free the memory and the answers are those of
  -- the finished calls made whole, one after another, in the order in which they unlocked.
  pub free-Replays :
      (first : S) (s : State S C A)
      → Reach body (starting first) s
      → s.owner ≡ none
      → Replays body first s.history s.memory
  free-Replays first s r e =
      let v = Reach-Inv body first r in
      subst (Replays body first s.history) (sym (v.free e)) v.replayed

  module _ (P : S → Type 0)
      (ends : (s : S) → P s → (c : C) → Yields (λ (a, t). P t) (perform (body c) s)) where
    Replays-keeps : (s u : S) (h : List (C × A)) → Replays body s h u → P s → P u
    Replays-keeps s u [] r p = subst P r p
    Replays-keeps s u ((c, a) ∷ h) (t, e, r) p = Replays-keeps t u h r (Yields-at (ends s p c) e)

    -- Nobody is in a call that has gone wrong.
    pub inside_ends :
        (first : S) (s : State S C A) (i : ℕ) (c : C) (p : Program S A)
        → P first
        → Reach body (starting first) s
        → s.threads i ≡ inside c p
        → (a : A) × ((t : S) × (perform p s.memory ≡ done (a, t)))
    inside_ends first s i c p h r e =
        let v = Reach-Inv body first r in
        let kept = Replays-keeps first v.base s.history v.replayed h in
        let ((a, t), whole, _) = Yields-value (ends v.base kept c) in
        (a, (t, (v.held i c p e).1 ∙ whole))
