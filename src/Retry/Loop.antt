-- ===== src/Retry/Loop.antt =====
-- `Do`, its loop and `addJitter`. What `fn`, the clock, the context and the random source do is given
-- by the number of the attempt, so any behaviour of theirs in one run is covered.
use rdispatch.Common.{ℕ, zero, suc, ◌+◌, Option, none, some, List, [], ◌∷◌, ◌==◌, if◌then◌else◌}
use rdispatch.Common.Int.{pos_part, ltb_ℤ}
use rdispatch.Common.Float.{Float64}
use rdispatch.Retry.Config.{Duration, Config, Setting, defaults, configure}

-- What happens around attempt `k`: the error of `fn`, if any; the error of the context, if the
-- `select` after it takes `ctx.Done()`; and the value of `rand.Float64()`.
pub record World (F E : Type 0) : Type 0 where
  pub call : ℕ → Option E
  pub cancelled : ℕ → Option E
  pub random : ℕ → F

-- The errors that `Do` returns: the wrapped last error, or that of the context.
pub data RetryError (E : Type 0) : Type 0 where
  max_attempts_reached : Option E → RetryError E
  context_error : E → RetryError E

-- What `Do` does: it calls `fn`, or waits on the context and a timer of the given duration.
pub data Action : Type 0 where
  called : ℕ → Action
  waited : Duration → Action

abbrev pub Outcome : Type 0 → Type 0
Outcome E = List Action × Option (RetryError E)

module _ (fl : Float64) where
  -- `addJitter`, at the random number `r`.
  unfoldable pub add_jitter : Duration → fl.F → Duration
  add_jitter d r = fl.to_int (fl.mul (fl.of_int d) (fl.add fl.three_quarters (fl.mul r fl.half)))

  -- The growth of the delay at the end of a round, with its cap.
  unfoldable pub grow : Config fl → Duration → Duration
  grow cfg delay =
      let next = fl.to_int (fl.mul (fl.of_int delay) cfg.multiplier) in
      if ltb_ℤ cfg.max_delay next then cfg.max_delay else next

  module _ {E : Type 0} (w : World fl.F E) (cfg : Config fl) where
    -- The rest of the loop, with `left` rounds to go. The test of the last round is
    -- `attempt == cfg.maxAttempts - 1`.
    unfoldable pub retry_loop : ℕ → ℕ → Duration → Option E → Outcome E
    retry_loop zero attempt delay last_err = ([], some (max_attempts_reached last_err))
    retry_loop (suc left) attempt delay last_err =
        let jittered = add_jitter delay (w.random attempt) in
        let later = retry_loop left (attempt + 1) (grow cfg delay) (w.call attempt) in
        let select : Outcome E = elim (w.cancelled attempt) [
          | some e ↦ (called attempt ∷ waited jittered ∷ [], some (context_error e))
          | none ↦ (called attempt ∷ waited jittered ∷ later.0, later.1)
        ] in
        elim (w.call attempt) [
          | none ↦ (called attempt ∷ [], none)
          | some e ↦
              if attempt + 1 == pos_part cfg.max_attempts
              then (called attempt ∷ [], some (max_attempts_reached (some e)))
              else select
        ]

  -- `Do`.
  unfoldable pub retry_do : {E : Type 0} → World fl.F E → List (Setting fl) → Outcome E
  retry_do w opts =
      let cfg = configure fl opts (defaults fl) in
      retry_loop w cfg (pos_part cfg.max_attempts) 0 cfg.base_delay none
