-- ===== src/Examples/Deliveries.antt =====
-- The delivery worker of internal/delivery at work.
use rdispatch.Common.{ℕ, none, some, List, [], ◌∷◌, Yields}
use rdispatch.Common.Json.{text, field, end, ok}
use rdispatch.Delivery.Notification.{Notification, Channel}
use rdispatch.Delivery.Channels.{Network, Std, log_channel, Webhook, Slack, Telegram}
use rdispatch.Delivery.Worker.{Surroundings, Worker, Round, handle_message}
use rdispatch.Delivery.Letters.{Kept, Handles, handle_message-Handles}
use rdispatch.Examples.Quarters.{quarters}
use rdispatch.Encoding.Codec.{encoding_json}
use rdispatch.Examples.Letters.{one_letter, one_letter-IsValid}

abbrev alert : Notification
alert = field "subject" (text "disk") (field "body" (text "full") end)

-- A channel that fails at every attempt.
abbrev pub broken : Channel
broken = record { name = "broken"; send = λ notif attempt. ([], some "no route") }

-- The context ends in the wait after the first attempt of the second channel.
abbrev pub evening : Surroundings ℕ
evening = record {
  cancelled = λ i attempt. some "context canceled";
  random = λ i attempt. 2;
  now = λ i. 9;
}

abbrev pub worker : Worker quarters
worker = record { channels = log_channel ∷ broken ∷ []; dlq = one_letter }

abbrev payload : List ℕ
payload = 3 ∷ 1 ∷ 0 ∷ 0 ∷ 0 ∷ []

handle_message-Handles_example :
    Yields
      (λ r.
        Kept quarters evening payload 2 worker r
        × Handles quarters evening payload 2 worker (encoding_json.unmarshal payload) r)
      (handle_message quarters encoding_json evening worker payload)
handle_message-Handles_example =
    handle_message-Handles quarters evening payload encoding_json worker 2 one_letter-IsValid

abbrev pub two_rounds : List (Round quarters)
two_rounds =
    record { fetched = some ((evening, payload) ∷ []); context_err = none }
    ∷ record { fetched = none; context_err = some "context canceled" }
    ∷ []

-- A network that answers every request with 204.
abbrev pub calm : Network
calm = record { bad_url = λ url. none; reply = λ req attempt. ok 204 }

abbrev pub std : Std
std = record { codec = encoding_json; hmac_sha256 = λ key message. key; bad_verb = λ v. "%!s" }

abbrev pub signed_hook : Webhook
signed_hook = record { url = "https://hooks.test"; secret = "s" }

abbrev slack : Slack
slack = record { webhook_url = "https://slack.test" }

-- A token without a chat.
abbrev half_telegram : Telegram
half_telegram = record { token = "t"; chat_id = "" }
