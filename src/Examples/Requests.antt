-- ===== src/Examples/Requests.antt =====
-- The gateway of internal/gateway and cmd/gateway-api at work.
use rdispatch.Common.{
  ◌≡◌, refl, true, false, none, some, List, [], ◌∷◌, ◌++◌, Yields, arith, All, length,
}
use rdispatch.Common.Json.{of_strings, lookup}
use rdispatch.Gateway.Rest.{metadata_json, SendRequest, Server, item_of}
use rdispatch.Gateway.RestLaws.{HasMetadata}
use rdispatch.Gateway.Drainer.{Moment, drain_queue}
use rdispatch.Gateway.Account.{arrived, IsHopeless, drain_queue-spins}
use rdispatch.Gateway.Emptied.{IsWorking, Emptied, drain_queue-Emptied}
use rdispatch.Delivery.Worker.{handle_message}
use rdispatch.Gateway.Delivered.{Delivered, handle_message-Delivered}
use rdispatch.Examples.Quarters.{quarters}
use rdispatch.Examples.Letters.{one_letter-IsValid}
use rdispatch.Examples.Deliveries.{evening, worker}
use rdispatch.Encoding.Codec.{encoding_json}
use rdispatch.Examples.Queues.{two_items, two_items-IsValid, older}
use rdispatch.Common.Json.{ok}
use rdispatch.Encoding.Sort.{sort_fields}
use rdispatch.Encoding.Codec.{unmarshal-marshal}
use rdispatch.Priority.Level.{parse_level}
use rdispatch.Delivery.Notification.{Notification}
use rdispatch.Delivery.Channels.{webhook_send}
use rdispatch.Gateway.Rest.{payload_fields}
use rdispatch.Gateway.RestLaws.{payload_fields-IsPlain}
use rdispatch.Gateway.Received.{Informs, webhook_send-Informs}
use rdispatch.Examples.Deliveries.{std, calm, signed_hook}

abbrev pub request : SendRequest
request = record {
  priority = "HIGH";
  recipient = "ops";
  subject = "disk";
  body = "";
  channel = "slack";
  source = "monitor";
  metadata = some (("host", "db1") ∷ ("rack", "7") ∷ []);
}

pub request-HasMetadata : HasMetadata request
unfolding metadata_json of_strings lookup
request-HasMetadata = (tt, refl, (tt, refl, tt))

abbrev pub server : Server
server = record { queue = two_items }

-- An item arrives, and is published.
abbrev busy : Moment
busy = record { arrivals = older ∷ []; is_done = false; publish_err = none }

-- The context has ended, and publishing fails.
abbrev hopeless : Moment
hopeless = record { arrivals = []; is_done = true; publish_err = some "connection closed" }

abbrev moments : List Moment
moments = busy ∷ hopeless ∷ busy ∷ []

abbrev night : List Moment
night = hopeless ∷ hopeless ∷ []

night-IsHopeless : All IsHopeless night
night-IsHopeless = ((refl, (_, refl)), ((refl, (_, refl)), tt))

drain_queue-spins_example :
    Yields
      (λ d.
        (d.returned ≡ false)
        × (d.published ≡ [])
        × (length d.queue.items ≡ length (arrived night ++ two_items.items)))
      (drain_queue night two_items)
drain_queue-spins_example =
    drain_queue-spins night two_items night-IsHopeless two_items-IsValid (omega arith)

-- Publishing works.
abbrev working : Moment
working = record { arrivals = []; is_done = false; publish_err = none }

-- The context has ended, so that publishing would fail.
abbrev closing : Moment
closing = record { arrivals = []; is_done = true; publish_err = some "context canceled" }

abbrev shift : List Moment
shift = working ∷ working ∷ working ∷ []

shift-IsWorking : All IsWorking shift
shift-IsWorking = ((refl, refl, refl), ((refl, refl, refl), ((refl, refl, refl), tt)))

drain_queue-Emptied_example :
    Yields (Emptied two_items.items) (drain_queue (shift ++ closing ∷ []) two_items)
drain_queue-Emptied_example =
    drain_queue-Emptied shift closing two_items shift-IsWorking (refl, refl) (omega arith)
      two_items-IsValid

handle_message-Delivered_example :
    Yields
      (Delivered quarters evening 2 "id-1" request
        (item_of encoding_json "id-1" 11 request).payload
        worker)
      (handle_message quarters encoding_json evening worker
        (item_of encoding_json "id-1" 11 request).payload)
handle_message-Delivered_example =
    handle_message-Delivered quarters evening "id-1" 11 2 request worker request-HasMetadata
      one_letter-IsValid

-- What the worker decodes.
abbrev asked : Notification
asked = sort_fields (payload_fields "id-1" (parse_level request.priority) request)

asked_decodes : encoding_json.unmarshal (item_of encoding_json "id-1" 11 request).payload ≡ ok asked
unfolding item_of encoding_json
asked_decodes =
    let level = parse_level request.priority in
    unmarshal-marshal (payload_fields "id-1" level request)
      (payload_fields-IsPlain "id-1" level request request-HasMetadata)

webhook_send-Informs_example :
    All (Informs std signed_hook "id-1" request) (webhook_send std calm signed_hook asked 0).0
webhook_send-Informs_example =
    webhook_send-Informs std calm signed_hook "id-1" 11 0 request asked refl request-HasMetadata
      asked_decodes
