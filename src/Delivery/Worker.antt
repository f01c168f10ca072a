-- ===== src/Delivery/Worker.antt =====
-- internal/delivery/worker.go: `handleMessage` and the loop of `Run`.
use rdispatch.Common.{
  ℕ, ◌+◌, ◌*◌, String, Option, none, some, List, [], ◌∷◌, ◌++◌, Run, done, ◌>>=◌,
}
use rdispatch.Common.Int.{pos}
use rdispatch.Common.Text.{concat}
use rdispatch.Common.Float.{Float64}
use rdispatch.Common.Json.{ok, err, Codec}
use rdispatch.Dlq.Memory.{Message, Memory, push}
use rdispatch.Retry.Config.{Setting, millisecond, with_max_attempts, with_base_delay}
use rdispatch.Retry.Loop.{World, RetryError, max_attempts_reached, context_error, Outcome, retry_do}
use rdispatch.Delivery.Notification.{Notification, Channel}

-- The text of an error from `Do`; the wrapped last error is nil only if there was no attempt.
unfoldable pub error_text : RetryError String → String
error_text (max_attempts_reached (some e)) = concat ("max retry attempts reached: " ∷ e ∷ [])
error_text (max_attempts_reached none) = "max retry attempts reached: <nil>"
error_text (context_error e) = e

-- What surrounds the handling of one message: for each channel, by its position, the context and the
-- random source during its `Do`, and the time of a dead letter.
pub record Surroundings (F : Type 0) : Type 0 where
  pub cancelled : ℕ → ℕ → Option String
  pub random : ℕ → ℕ → F
  pub now : ℕ → ℕ

module _ (fl : Float64) where
  -- `retry.WithMaxAttempts(3), retry.WithBaseDelay(500*time.Millisecond)`.
  abbrev pub delivery_options : List (Setting fl)
  delivery_options =
      with_max_attempts fl (pos 3) ∷ with_base_delay fl (pos (500 * millisecond)) ∷ []

  abbrev pub world_of : Surroundings fl.F → ℕ → Channel → Notification → World fl.F String
  world_of s i ch notif = record {
    call = λ attempt. (ch.send notif attempt).1;
    cancelled = s.cancelled i;
    random = s.random i;
  }

  -- `retry.Do` around one channel's `Send`.
  unfoldable pub deliver : Surroundings fl.F → ℕ → Channel → Notification → Outcome String
  deliver s i ch notif = retry_do fl (world_of s i ch notif) delivery_options

  -- The dead letter of a failed delivery. Its time is set by `Push`.
  abbrev pub dead_letter : Channel → List ℕ → RetryError String → Message
  dead_letter ch payload e = record {
    original_topic = "rdispatch.deliver";
    key = [];
    value = payload;
    error = concat ("channel " ∷ ch.name ∷ ": " ∷ error_text e ∷ []);
    attempts = pos 3;
    failed_at = 0;
    headers = [];
  }

  -- `if err != nil { … w.dlq.Push(…) }`.
  unfoldable pub bury :
      Surroundings fl.F → ℕ → Channel → List ℕ → Outcome String → Memory → Run Memory
  bury s i ch payload (actions, none) dlq = done dlq
  bury s i ch payload (actions, some e) dlq = push dlq (s.now i) (dead_letter ch payload e)

  -- The loop over the channels, from position `i` on.
  unfoldable pub deliver_all :
      Surroundings fl.F
      → List ℕ
      → Notification
      → ℕ
      → List Channel
      → Memory
      → Run (List (Outcome String) × Memory)
  deliver_all s payload notif i [] dlq = done ([], dlq)
  deliver_all s payload notif i (ch ∷ chs) dlq =
      let outcome = deliver s i ch notif in
      bury s i ch payload outcome dlq >>= λ after.
      deliver_all s payload notif (i + 1) chs after >>= λ (outcomes, last).
      done (outcome ∷ outcomes, last)

  pub record Worker : Type 0 where
    pub channels : List Channel
    pub dlq : Memory

  -- What became of one message: how each channel fared, and how often the message was acknowledged.
  pub record Handled : Type 0 where
    pub outcomes : List (Outcome String)
    pub acks : ℕ

  unfoldable pub handle_message :
      Codec → Surroundings fl.F → Worker → List ℕ → Run (Handled × Worker)
  handle_message codec s w payload = elim (codec.unmarshal payload) [
    | err e ↦ done (record { outcomes = []; acks = 1 }, w)
    | ok notif ↦ deliver_all s payload notif 0 w.channels w.dlq >>= λ (outcomes, dlq).
        done (record { outcomes = outcomes; acks = 1 }, record w { dlq = dlq })
  ]

  -- One round of the loop of `Run`: `Fetch` fails, or gives messages, each with its surroundings; and
  -- what `ctx.Err()` says at the end of the round.
  pub record Round : Type 0 where
    pub fetched : Option (List (Surroundings fl.F × List ℕ))
    pub context_err : Option String

  unfoldable pub handle_all :
      Codec → List (Surroundings fl.F × List ℕ) → Worker → Run (List Handled × Worker)
  handle_all codec [] w = done ([], w)
  handle_all codec ((s, payload) ∷ more) w = handle_message codec s w payload >>= λ (h, after).
      handle_all codec more after >>= λ (hs, last). done (h ∷ hs, last)

  -- How far `Run` has come after some rounds: it has returned an error, or it goes on.
  pub data Progress : Type 0 where
    returned : String → Progress
    running : Progress

  -- The messages of a round; a failed `Fetch` has none.
  abbrev pub batch : Option (List (Surroundings fl.F × List ℕ)) → List (Surroundings fl.F × List ℕ)
  batch none = []
  batch (some msgs) = msgs

  -- The loop of `Run` over the rounds that the world plays.
  unfoldable pub run_loop : Codec → List Round → Worker → Run (Progress × List Handled × Worker)
  run_loop codec [] w = done (running, [], w)
  run_loop codec (r ∷ rs) w = handle_all codec (batch r.fetched) w >>= λ (hs, after).
      let go_on = run_loop codec rs after >>= λ (p, more, last). done (p, hs ++ more, last) in
      elim r.context_err [ some e ↦ done (returned e, hs, after) | none ↦ go_on ]

  -- `Run`: first the consumer is created, with an error or none.
  unfoldable pub run :
      Codec → Option String → List Round → Worker → Run (Progress × List Handled × Worker)
  run codec (some e) rs w = done (returned (concat ("creating NATS consumer: " ∷ e ∷ [])), [], w)
  run codec none rs w = run_loop codec rs w
