-- ===== src/Gateway/Delivered.antt =====
-- From the gateway's queue to the worker's channels.
use rdispatch.Common.{ℕ, ◌≡◌, subst, String, List, ◌++◌, Yields, Yields-weaken}
use rdispatch.Common.Float.{Float64}
use rdispatch.Common.Json.{Codec, IsCodec}
use rdispatch.Encoding.Codec.{encoding_json, encoding_json-IsCodec}
use rdispatch.Dlq.Window.{newest, IsValid}
use rdispatch.Delivery.Notification.{Notification}
use rdispatch.Delivery.Worker.{Surroundings, Worker, Handled, handle_message}
use rdispatch.Delivery.Letters.{outcomes_from, letters_from, Handles, handle_message-Handles}
use rdispatch.Gateway.Rest.{SendRequest, item_of}
use rdispatch.Gateway.RestLaws.{HasMetadata, Reads, payload-Reads}

module _ (fl : Float64) (s : Surroundings fl.F) where
  -- The worker has read the request in the payload, given it to each channel in turn, kept the dead
  -- letters of those that failed, and acknowledged the message once.
  pub record Delivered (n : ℕ) (id : String) (req : SendRequest) (payload : List ℕ) (w : Worker fl)
      (r : Handled fl × Worker fl) : Type 0 where
    pub notif : Notification
    pub reads : Reads id req notif
    pub outcomes : r.0.outcomes ≡ outcomes_from fl s payload notif 0 w.channels
    pub letters :
        r.1.dlq.messages ≡ newest n (w.dlq.messages ++ letters_from fl s payload notif 0 w.channels)
    pub acked : r.0.acks ≡ 1

  codec-Delivered :
      (codec : Codec) (id : String) (now n : ℕ) (req : SendRequest) (w : Worker fl)
      → IsCodec codec
      → HasMetadata req
      → IsValid n w.dlq
      → Yields
          (Delivered n id req (item_of codec id now req).payload w)
          (handle_message fl codec s w (item_of codec id now req).payload)
  codec-Delivered codec id now n req w c h v =
      let payload = (item_of codec id now req).payload in
      let (notif, decodes, reads) = payload-Reads codec id now req c h in
      Yields-weaken (handle_message-Handles fl s payload codec w n v) λ r (kept, handled).
        let (outcomes, letters) = subst (λ d. Handles fl s payload n w d r) decodes handled in
        record {
          notif = notif;
          reads = reads;
          outcomes = outcomes;
          letters = letters;
          acked = kept.acked;
        }

  -- The worker reads, in the JSON that the gateway queues for a request, a notification with the
  -- identifier, the level, the recipient, the subject, the body, the channel, the source and the metadata
  -- of the request; it gives that notification to every one of its channels, keeps a dead letter for each
  -- that fails, and acknowledges the message once.
  pub handle_message-Delivered :
      (id : String) (now n : ℕ) (req : SendRequest) (w : Worker fl)
      → HasMetadata req
      → IsValid n w.dlq
      → Yields
          (Delivered n id req (item_of encoding_json id now req).payload w)
          (handle_message fl encoding_json s w (item_of encoding_json id now req).payload)
  handle_message-Delivered id now n req w h v =
      codec-Delivered encoding_json id now n req w encoding_json-IsCodec h v
