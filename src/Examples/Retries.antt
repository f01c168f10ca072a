-- ===== src/Examples/Retries.antt =====
-- pkg/retry at work.
use rdispatch.Common.{ℕ, ◌*◌, ◌<◌, ◌≡◌, refl, String, none, some, List, [], ◌∷◌}
use rdispatch.Common.Int.{pos, pos_part}
use rdispatch.Retry.Config.{
  Setting, millisecond, second, defaults, configure, with_max_attempts, with_max_delay,
}
use rdispatch.Retry.Options.{AreOptions, one_more, none_left, max_attempts, max_delay}
use rdispatch.Retry.Loop.{
  World, max_attempts_reached, called, waited, add_jitter, grow, retry_loop, retry_do,
}
use rdispatch.Retry.Outcome.{Retried, EndsAt, retry_do-EndsAt}
use rdispatch.Examples.Quarters.{quarters}

-- `fn` fails at every attempt, the context never ends, and the random number is 0.5.
abbrev failing : World ℕ String
failing = record {
  call = λ attempt. some "no answer";
  cancelled = λ attempt. none;
  random = λ attempt. 2;
}

-- With the defaults: three attempts, and waits of 100 and 200 milliseconds between them.
three_attempts : retry_do quarters failing [] ≡ (
  called 0
      ∷ waited (pos (100 * millisecond))
      ∷ called 1
      ∷ waited (pos (200 * millisecond))
      ∷ called 2
      ∷ [],
  some (max_attempts_reached (some "no answer")),
)
unfolding retry_do retry_loop configure add_jitter grow
three_attempts = refl

abbrev two_options : List (Setting quarters)
two_options = with_max_attempts quarters (pos 2) ∷ with_max_delay quarters (pos second) ∷ []

two_options-AreOptions : AreOptions quarters two_options
two_options-AreOptions =
    one_more (max_attempts (pos 2)) (one_more (max_delay (pos second)) none_left)

retry_do-EndsAt_example :
    let cfg = configure quarters two_options (defaults quarters) in
    (n : ℕ) × (n < pos_part cfg.max_attempts)
    × ((j : ℕ) → j < n → Retried quarters cfg failing j)
    × EndsAt quarters cfg failing 0 n n (retry_do quarters failing two_options)
retry_do-EndsAt_example = retry_do-EndsAt quarters failing two_options two_options-AreOptions
