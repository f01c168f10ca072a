-- ===== src/Retry/Outcome.antt =====
-- Where `Do` stops, what it returns there, and all that it has done until then.
use native.Mathlib.Numerals.{add-one}
use rdispatch.Common.{
  ℕ, zero, suc, ◌+◌, ◌≤◌, ◌<◌, ◌≡◌, inl, inr, refl, subst, ap, true, false, Option, none, some,
  List, [], ◌∷◌, ◌++◌, arith, ◌==◌, ℕ_discrete, Option-cases, Bool-cases,
}
use rdispatch.Common.Int.{ℤ, pos, negsuc, pos_part, ◌≤ℤ◌}
use rdispatch.Common.Float.{Float64}
use rdispatch.Retry.Config.{Duration, Config, Setting, defaults, configure}
use rdispatch.Retry.Options.{AreOptions, configure-IsValid, defaults-IsValid}
use rdispatch.Retry.Loop.{
  World, max_attempts_reached, context_error, Action, called, waited, Outcome, add_jitter, grow,
  retry_loop, retry_do,
}

module _ (fl : Float64) (cfg : Config fl) where
  -- The delay before jitter that follows attempt `k`.
  abbrev pub delay_at : ℕ → Duration
  delay_at zero = cfg.base_delay
  delay_at (suc k) = grow fl cfg (delay_at k)

  module _ {E : Type 0} (w : World fl.F E) where
    -- What `n` failed attempts from `k` on do, with the waits between them.
    abbrev pub rounds : ℕ → ℕ → List Action
    rounds k zero = []
    rounds k (suc n) =
        called k ∷ waited (add_jitter fl (delay_at k) (w.random k)) ∷ rounds (k + 1) n

    -- Attempt `k` fails, and the wait after it runs to its end.
    abbrev pub Retried : ℕ → Type 0
    Retried k = ((e : E) × (w.call k ≡ some e)) × (w.cancelled k ≡ none)

    -- How the loop ends at attempt `k`, after `n` failed attempts from `start` on: `fn` succeeds, or
    -- it fails in the last attempt, or it fails earlier and the context ends during the wait.
    pub data EndsAt (start n k : ℕ) (o : Outcome E) : Type 0 where
      succeeds : w.call k ≡ none → o ≡ (rounds start n ++ called k ∷ [], none) → EndsAt start n k o
      exhausted :
          (e : E)
          → w.call k ≡ some e
          → k + 1 ≡ pos_part cfg.max_attempts
          → o ≡ (rounds start n ++ called k ∷ [], some (max_attempts_reached (some e)))
          → EndsAt start n k o
      interrupted :
          (e c : E)
          → w.call k ≡ some e
          → k + 1 < pos_part cfg.max_attempts
          → w.cancelled k ≡ some c
          → o ≡ (
            rounds start n ++ called k ∷ waited (add_jitter fl (delay_at k) (w.random k)) ∷ [],
            some (context_error c),
          )
          → EndsAt start n k o

    abbrev Ends : ℕ → ℕ → Outcome E → Type 0
    Ends left start o =
        (n : ℕ) × (k : ℕ) × (k ≡ start + n)
        × (n < left)
        × ((j : ℕ) → start ≤ j → j < k → Retried j)
        × EndsAt start n k o

    -- The same with one more round in front.
    abbrev with_round : ℕ → Outcome E → Outcome E
    with_round start o =
        (called start ∷ waited (add_jitter fl (delay_at start) (w.random start)) ∷ o.0, o.1)

    EndsAt-with_round :
        (start n k : ℕ) (o : Outcome E)
        → EndsAt (start + 1) n k o
        → EndsAt start (suc n) k (with_round start o)
    EndsAt-with_round start n k o (succeeds c e) = succeeds c (ap (with_round start) e)
    EndsAt-with_round start n k o (exhausted x c m e) = exhausted x c m (ap (with_round start) e)
    EndsAt-with_round start n k o (interrupted x y c m d e) =
        interrupted x y c m d (ap (with_round start) e)

    Retried-from :
        (start k : ℕ)
        → Retried start
        → ((j : ℕ) → start + 1 ≤ j → j < k → Retried j)
        → (j : ℕ) → start ≤ j
        → j < k
        → Retried j
    Retried-from start k r later j h p = elim (ℕ_discrete start j) [
      | yes e ↦ subst Retried e r
      | no e ↦ later j (omega arith) p
    ]

    Ends-with_round :
        (left start : ℕ) (o : Outcome E)
        → Retried start
        → Ends left (start + 1) o
        → Ends (suc left) start (with_round start o)
    Ends-with_round left start o r (n, k, e, lt, before, ends) = (
      suc n,
      k,
      omega arith,
      omega arith,
      Retried-from start k r before,
      EndsAt-with_round start n k o ends,
    )

    nothing_before : (start : ℕ) (j : ℕ) → start ≤ j → j < start → Retried j
    nothing_before start j h p = absurd (omega arith)

    -- An end at the first attempt.
    Ends-now : (left start : ℕ) (o : Outcome E) → EndsAt start 0 start o → Ends (suc left) start o
    Ends-now left start o h = (0, start, omega arith, omega arith, nothing_before start, h)

    -- The four ways through a round.
    round_ok :
        (left start : ℕ) (d : Duration) (last : Option E)
        → w.call start ≡ none
        → retry_loop fl w cfg (suc left) start d last ≡ (called start ∷ [], none)
    unfolding retry_loop
    round_ok left start d last ok = rw (ok, retry_loop)

    round_last :
        (left start : ℕ) (d : Duration) (last : Option E) (x : E)
        → w.call start ≡ some x
        → (start + 1 == pos_part cfg.max_attempts) ≡ true
        → retry_loop fl w cfg (suc left) start d last
          ≡ (called start ∷ [], some (max_attempts_reached (some x)))
    unfolding retry_loop
    round_last left start d last x failed m = rw (failed, retry_loop, m)

    round_cancelled :
        (left start : ℕ) (d : Duration) (last : Option E) (x c : E)
        → w.call start ≡ some x
        → (start + 1 == pos_part cfg.max_attempts) ≡ false
        → w.cancelled start ≡ some c
        → retry_loop fl w cfg (suc left) start d last
          ≡ (called start ∷ waited (add_jitter fl d (w.random start)) ∷ [], some (context_error c))
    unfolding retry_loop
    round_cancelled left start d last x c failed m off = rw (failed, retry_loop, m, off)

    round_again :
        (left start : ℕ) (last : Option E) (x : E)
        → w.call start ≡ some x
        → (start + 1 == pos_part cfg.max_attempts) ≡ false
        → w.cancelled start ≡ none
        → retry_loop fl w cfg (suc left) start (delay_at start) last
          ≡ with_round start
              (retry_loop fl w cfg left (start + 1) (delay_at (start + 1)) (w.call start))
    unfolding retry_loop
    round_again left start last x failed m on =
        rw (failed, retry_loop, m, on) (rw (failed, add-one))

    retry_loop-Ends :
        (left start : ℕ) (last : Option E)
        → 0 < left
        → start + left ≡ pos_part cfg.max_attempts
        → Ends left start (retry_loop fl w cfg left start (delay_at start) last)
    retry_loop-Ends zero start last h e = absurd (omega arith)
    retry_loop-Ends (suc left) start last h e = elim (Option-cases (w.call start)) [
      | inl ok ↦
          rw (round_ok left start (delay_at start) last ok)
            (Ends-now left start _ (succeeds ok refl))
      | inr (x, failed) ↦ elim (Bool-cases (start + 1 == pos_part cfg.max_attempts)) [
        | inl m ↦
            rw (round_last left start (delay_at start) last x failed m)
              (Ends-now left start _ (exhausted x failed (ground arith) refl))
        | inr m ↦ elim (Option-cases (w.cancelled start)) [
          | inl on ↦ rw (round_again left start last x failed m on) (
              Ends-with_round left start _ ((x, failed), on)
                (retry_loop-Ends left (start + 1) (w.call start) (ground arith) (omega arith)))
          | inr (c, off) ↦
              rw (round_cancelled left start (delay_at start) last x c failed m off)
                (Ends-now left start _ (interrupted x c failed (ground arith) off refl))
        ]
      ]
    ]

pos_part_ge : (z : ℤ) → pos 1 ≤ℤ z → 0 < pos_part z
pos_part_ge (pos n) h = omega arith
pos_part_ge (negsuc n) h = absurd (omega arith)

-- `Do` makes its attempts in turn, each failed one followed by a full wait of the jittered delay, and
-- stops at one attempt `n`, below the maximum: because `fn` succeeds (and returns nil), because the
-- last attempt fails (and wraps its error), or because the context ends in the wait after a failed
-- attempt (and returns that error). There is always at least one attempt, whatever options are given.
pub retry_do-EndsAt :
    (fl : Float64) {E : Type 0} (w : World fl.F E) (opts : List (Setting fl))
    → AreOptions fl opts
    → let cfg = configure fl opts (defaults fl) in
      (n : ℕ) × (n < pos_part cfg.max_attempts)
      × ((j : ℕ) → j < n → Retried fl cfg w j)
      × EndsAt fl cfg w 0 n n (retry_do fl w opts)
unfolding retry_do
retry_do-EndsAt fl w opts os =
    let cfg = configure fl opts (defaults fl) in
    let v = configure-IsValid fl (defaults fl) os (defaults-IsValid fl) in
    let (n, k, e, lt, before, ends) =
      retry_loop-Ends fl cfg w (pos_part cfg.max_attempts) 0 none
        (pos_part_ge cfg.max_attempts v.attempts) (omega arith) in
    let same : k ≡ n = omega arith in
    (
      n,
      lt,
      λ j h. before j (omega arith) (omega arith),
      subst (λ i. EndsAt fl cfg w 0 n i (retry_do fl w opts)) same ends,
    )
