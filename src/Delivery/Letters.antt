-- ===== src/Delivery/Letters.antt =====
-- What `handleMessage` does with the channels, the dead letters and the acknowledgement.
use mathlib.Core.List.{append-nil, append_assoc}
use rdispatch.Common.{
  ℕ, ◌+◌, ◌*◌, ◌≡◌, refl, sym, ap, ◌∙◌, String, none, some, List, [], ◌∷◌, ◌++◌, Yields, yields,
  Yields-then,
}
use rdispatch.Common.Float.{Float64}
use rdispatch.Common.Json.{Fields, Result, ok, err, Codec}
use rdispatch.Dlq.Memory.{Message, Memory, stamp}
use rdispatch.Dlq.Window.{newest, IsValid, push-newest, newest-append, newest-all}
use rdispatch.Common.Int.{pos}
use rdispatch.Common.Text.{concat}
use rdispatch.Retry.Config.{millisecond, with_max_attempts, with_base_delay}
use rdispatch.Retry.Loop.{Outcome, retry_do}
use rdispatch.Delivery.Notification.{Notification, Channel}
use rdispatch.Delivery.Worker.{
  error_text, Surroundings, deliver, dead_letter, bury, deliver_all, Worker, Handled,
  handle_message,
}

module _ (fl : Float64) (s : Surroundings fl.F) (payload : List ℕ) where
  -- The dead letters of one channel: none after a success, one after a failure.
  abbrev pub letter : ℕ → Channel → Outcome String → List Message
  letter i ch (actions, none) = []
  letter i ch (actions, some e) =
      record {
        original_topic = "rdispatch.deliver";
        key = [];
        value = payload;
        error = concat ("channel " ∷ ch.name ∷ ": " ∷ error_text e ∷ []);
        attempts = pos 3;
        failed_at = s.now i;
        headers = [];
      }
      ∷ []

  module _ (notif : Notification) where
    -- `Do` with three attempts and half a second before the second, around the channel's own `Send` of the
    -- notification.
    abbrev pub tried : ℕ → Channel → Outcome String
    tried i ch =
        retry_do fl
          (record {
            call = λ attempt. (ch.send notif attempt).1;
            cancelled = s.cancelled i;
            random = s.random i;
          })
          (with_max_attempts fl (pos 3) ∷ with_base_delay fl (pos (500 * millisecond)) ∷ [])

    -- Each channel's own `Do`, with nothing of the other channels.
    abbrev pub outcomes_from : ℕ → List Channel → List (Outcome String)
    outcomes_from i [] = []
    outcomes_from i (ch ∷ chs) = tried i ch ∷ outcomes_from (i + 1) chs

    -- The dead letters of the channels that fail, in the order of the channels.
    abbrev pub letters_from : ℕ → List Channel → List Message
    letters_from i [] = []
    letters_from i (ch ∷ chs) = letter i ch (tried i ch) ++ letters_from (i + 1) chs

  -- What a memory holds after some dead letters.
  abbrev pub Buried : ℕ → Memory → List Message → Memory → Type 0
  Buried n dlq new after = (after.messages ≡ newest n (dlq.messages ++ new)) × IsValid n after

  bury-Buried :
      (n i : ℕ) (ch : Channel) (o : Outcome String) (dlq : Memory)
      → IsValid n dlq
      → Yields (Buried n dlq (letter i ch o)) (bury fl s i ch payload o dlq)
  unfolding bury stamp
  bury-Buried n i ch (actions, none) dlq v =
      yields (rw append-nil (sym (newest-all n dlq.messages v.bounded)), v)
  bury-Buried n i ch (actions, some e) dlq v =
      push-newest n dlq (s.now i) (dead_letter fl ch payload e) v

  Buried-join :
      (n : ℕ) (xs ys zs kept : List Message)
      → kept ≡ newest n (xs ++ ys)
      → newest n (kept ++ zs) ≡ newest n (xs ++ (ys ++ zs))
  Buried-join n xs ys zs kept e =
      rw (e, newest-append n (xs ++ ys) zs) (ap (newest n) (append_assoc xs ys zs))

  deliver_all-Buried :
      (n i : ℕ) (notif : Notification) (chs : List Channel) (dlq : Memory)
      → IsValid n dlq
      → Yields
          (λ (outcomes, after).
            (outcomes ≡ outcomes_from notif i chs)
            × (after.messages ≡ newest n (dlq.messages ++ letters_from notif i chs))
            × IsValid n after)
          (deliver_all fl s payload notif i chs dlq)
  unfolding deliver_all deliver
  deliver_all-Buried n i notif [] dlq v =
      yields (refl, rw append-nil (sym (newest-all n dlq.messages v.bounded)), v)
  deliver_all-Buried n i notif (ch ∷ chs) dlq v =
      let o = deliver fl s i ch notif in
      Yields-then (bury-Buried n i ch o dlq v) λ after (e, w).
        Yields-then (deliver_all-Buried n (i + 1) notif chs after w)
          λ (outcomes, last) (same, held, u). yields (
            ap (◌∷◌ o) same,
            held
                ∙ Buried-join n dlq.messages (letter i ch o) (letters_from notif (i + 1) chs)
                    after.messages e,
            u,
          )

  -- What becomes of a message, by what its payload decodes to.
  abbrev pub Handles : ℕ → Worker fl → Result Fields → Handled fl × Worker fl → Type 0
  Handles n w (err e) (h, after) = (h.outcomes ≡ []) × (after.dlq ≡ w.dlq)
  Handles n w (ok notif) (h, after) =
      (h.outcomes ≡ outcomes_from notif 0 w.channels)
      × (after.dlq.messages ≡ newest n (w.dlq.messages ++ letters_from notif 0 w.channels))

  -- Every message is acknowledged once, and neither the channels nor the bounds of the queue change.
  pub record Kept (n : ℕ) (w : Worker fl) (r : Handled fl × Worker fl) : Type 0 where
    pub acked : r.0.acks ≡ 1
    pub channels : r.1.channels ≡ w.channels
    pub valid : IsValid n r.1.dlq

  handle_decoded :
      (codec : Codec) (w : Worker fl) (n : ℕ) (decoded : Result Fields)
      → codec.unmarshal payload ≡ decoded
      → IsValid n w.dlq
      → Yields (λ r. Kept n w r × Handles n w decoded r) (handle_message fl codec s w payload)
  unfolding handle_message
  handle_decoded codec w n (err e) d v =
      rw (d, handle_message)
        (yields (record { acked = refl; channels = refl; valid = v }, (refl, refl)))
  handle_decoded codec w n (ok notif) d v =
      rw (d, handle_message)
        (Yields-then (deliver_all-Buried n 0 notif w.channels w.dlq v)
          λ (outcomes, dlq) (same, held, u).
            yields (record { acked = refl; channels = refl; valid = u }, (same, held)))

  -- `handleMessage` acknowledges every message once, whatever becomes of it. A message that `Unmarshal`
  -- refuses is dropped. Any other goes through every channel: each is sent the decoded notification up to
  -- three times by a `Do` of its own, whatever the others do; for each channel that fails, in order, the
  -- dead letter queue takes one message with the payload and the error, and keeps the newest.
  pub handle_message-Handles :
      (codec : Codec) (w : Worker fl) (n : ℕ)
      → IsValid n w.dlq
      → Yields
          (λ r. Kept n w r × Handles n w (codec.unmarshal payload) r)
          (handle_message fl codec s w payload)
  handle_message-Handles codec w n v = handle_decoded codec w n (codec.unmarshal payload) refl v
