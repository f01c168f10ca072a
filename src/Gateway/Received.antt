-- ===== src/Gateway/Received.antt =====
-- From the gateway's queue to the receiver of a webhook.
use rdispatch.Common.{ℕ, ◌≡◌, ap, String, List, str_eq, Bool-cases, inl, inr, All, ltb}
use rdispatch.Common.Json.{ok}
use rdispatch.Encoding.Codec.{marshal, unmarshal, encoding_json, unmarshal_twice}
use rdispatch.Encoding.Sort.{sort_fields}
use rdispatch.Priority.Level.{parse_level}
use rdispatch.Delivery.Notification.{Notification, Request}
use rdispatch.Delivery.Channels.{Network, Std, Webhook, webhook_request, webhook_post, webhook_send}
use rdispatch.Delivery.ChannelLaws.{IsAuthentic, request-IsAuthentic, post-All}
use rdispatch.Gateway.Rest.{SendRequest, payload_fields, item_of}
use rdispatch.Gateway.RestLaws.{HasMetadata, Reads, Reads-of_SameMap, payload_fields-IsPlain}

-- What a receiver makes of a request: its signature is right, and its body is a notification with the
-- fields of what was asked of the gateway.
pub record Informs (std : Std) (w : Webhook) (id : String) (req : SendRequest) (r : Request)
    : Type 0 where
  pub authentic : IsAuthentic std w r
  pub notif : Notification
  pub decodes : unmarshal r.body ≡ ok notif
  pub reads : Reads id req notif

webhook_post-Informs :
    (std : Std) (net : Network) (w : Webhook) (attempt : ℕ) (id : String) (req : SendRequest)
    (body : List ℕ) (n : Notification)
    → unmarshal body ≡ ok n
    → Reads id req n
    → All (Informs std w id req) (webhook_post std net w attempt (ok body)).0
unfolding webhook_post
webhook_post-Informs std net w attempt id req body n e r =
    post-All net "creating request: " "webhook POST: " "webhook returned status "
      (λ status. ltb status 300) (webhook_request std w body) attempt (Informs std w id req)
      (record { authentic = request-IsAuthentic std w body; notif = n; decodes = e; reads = r })

-- With encoding/json in both processes: of the notification that the worker decodes from the payload of an
-- accepted request, a webhook makes only requests whose signature is right and whose body decodes to a
-- notification with the identifier, the level, the recipient, the subject, the body, the channel, the
-- source and the metadata of that request.
pub webhook_send-Informs :
    (std : Std) (net : Network) (w : Webhook) (id : String) (now attempt : ℕ) (req : SendRequest)
    (notif : Notification)
    → std.codec ≡ encoding_json
    → HasMetadata req
    → encoding_json.unmarshal (item_of encoding_json id now req).payload ≡ ok notif
    → All (Informs std w id req) (webhook_send std net w notif attempt).0
unfolding webhook_send item_of encoding_json
webhook_send-Informs std net w id now attempt req notif c h e =
    let level = parse_level req.priority in
    let (again, same) =
      unmarshal_twice (payload_fields id level req) notif (payload_fields-IsPlain id level req h)
        e in
    let encoded : std.codec.marshal notif ≡ ok (marshal notif) = ap (λ k. k.marshal notif) c in
    elim (Bool-cases (str_eq w.url "")) [
      | inl silent ↦ rw silent tt
      | inr speaks ↦
          rw (speaks, encoded)
            (webhook_post-Informs std net w attempt id req (marshal notif) (sort_fields notif) again
              (Reads-of_SameMap id req (sort_fields notif) same))
    ]
