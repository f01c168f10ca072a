-- ===== src/Delivery/Channels.antt =====
-- internal/delivery/channels: log, webhook, Slack and Telegram.
use rdispatch.Common.{
  ℕ, String, Bool, Option, none, some, List, [], ◌∷◌, ◌++◌, str_eq, ltb, ◌==◌, ◌||◌, if◌then◌else◌,
}
use rdispatch.Common.Int.{pos}
use rdispatch.Common.Text.{concat, decimal, hex, bytes}
use rdispatch.Common.Json.{Json, text, lookup, of_strings, Result, ok, err, or_nil, Codec}
use rdispatch.Delivery.Notification.{
  Notification, notification_priority, notification_recipient, Request, Sending, Channel,
}

-- net/http and the network: whether `NewRequestWithContext` accepts a URL, and how `client.Do` ends
-- for a request at an attempt, with a status code or an error.
pub record Network : Type 0 where
  pub bad_url : String → Option String
  pub reply : Request → ℕ → Result ℕ

-- What the channels take from the standard library.
pub record Std : Type 0 where
  pub codec : Codec
  pub hmac_sha256 : List ℕ → List ℕ → List ℕ  -- the key, then the message
  pub bad_verb : Json → String  -- `%s` of a value that is no string

-- `%s` of `notif[key]`.
unfoldable pub shown : Std → Option Json → String
shown std none = "%!s(<nil>)"
shown std (some (text s)) = s
shown std (some v) = std.bad_verb v

-- `Log.Send` writes a log entry and succeeds.
abbrev pub log_channel : Channel
log_channel = record { name = "log"; send = λ notif attempt. ([], none) }

-- The part that the three senders share: build the request, send it, and judge the status code.
unfoldable pub post : Network → String → String → String → (ℕ → Bool) → Request → ℕ → Sending
post net creating calling returned accepts req attempt = elim (net.bad_url req.url) [
  | some e ↦ ([], some (concat (creating ∷ e ∷ [])))
  | none ↦ elim (net.reply req attempt) [
    | err e ↦ (req ∷ [], some (concat (calling ∷ e ∷ [])))
    | ok status ↦ (
      req ∷ [],
      if accepts status then none else some (concat (returned ∷ decimal (pos status) ∷ [])),
    )
  ]
]

abbrev pub is_ok : ℕ → Bool
is_ok status = status == 200

pub record Webhook : Type 0 where
  pub url : String
  pub secret : String

-- The headers of a webhook request with the given body.
unfoldable pub webhook_headers : Std → Webhook → List ℕ → List (String × String)
webhook_headers std w body =
    let plain = ("Content-Type", "application/json") ∷ ("X-RDispatch-Event", "notification") ∷ [] in
    let signature = concat ("sha256=" ∷ hex (std.hmac_sha256 (bytes w.secret) body) ∷ []) in
    if str_eq w.secret "" then plain else plain ++ ("X-RDispatch-Signature", signature) ∷ []

-- The request for a body.
abbrev pub webhook_request : Std → Webhook → List ℕ → Request
webhook_request std w body = record {
  method = "POST";
  url = w.url;
  headers = webhook_headers std w body;
  body = body;
}

-- What follows `json.Marshal(notif)`.
unfoldable pub webhook_post : Std → Network → Webhook → ℕ → Result (List ℕ) → Sending
webhook_post std net w attempt (err e) = ([], some (concat ("marshaling webhook body: " ∷ e ∷ [])))
webhook_post std net w attempt (ok body) =
    post net "creating request: " "webhook POST: " "webhook returned status "
      (λ status. ltb status 300) (webhook_request std w body) attempt

unfoldable pub webhook_send : Std → Network → Webhook → Notification → ℕ → Sending
webhook_send std net w notif attempt =
    if str_eq w.url "" then ([], none) else webhook_post std net w attempt (std.codec.marshal notif)

abbrev pub webhook_channel : Std → Network → Webhook → Channel
webhook_channel std net w = record { name = "webhook"; send = webhook_send std net w }

pub record Slack : Type 0 where
  pub webhook_url : String

unfoldable pub slack_text : Std → Notification → String
slack_text std notif = concat (
    "*["
    ∷ notification_priority notif
    ∷ "]* "
    ∷ shown std (lookup "subject" notif)
    ∷ "\n"
    ∷ shown std (lookup "body" notif)
    ∷ "\n_Recipient: "
    ∷ notification_recipient notif
    ∷ "_"
    ∷ [])

abbrev pub slack_request : Std → Slack → Notification → Request
slack_request std s notif = record {
  method = "POST";
  url = s.webhook_url;
  headers = ("Content-Type", "application/json") ∷ [];
  body = or_nil (std.codec.marshal (of_strings (("text", slack_text std notif) ∷ [])));
}

unfoldable pub slack_send : Std → Network → Slack → Notification → ℕ → Sending
slack_send std net s notif attempt =
    if str_eq s.webhook_url ""
    then ([], none)
    else post net "creating slack request: " "slack webhook call: " "slack webhook returned status "
        is_ok (slack_request std s notif) attempt

abbrev pub slack_channel : Std → Network → Slack → Channel
slack_channel std net s = record { name = "slack"; send = slack_send std net s }

pub record Telegram : Type 0 where
  pub token : String
  pub chat_id : String

unfoldable pub telegram_text : Std → Notification → String
telegram_text std notif = concat (
    "🔔 *"
    ∷ notification_priority notif
    ∷ "* — "
    ∷ shown std (lookup "subject" notif)
    ∷ "\n\n"
    ∷ shown std (lookup "body" notif)
    ∷ "\n\n_Recipient: "
    ∷ notification_recipient notif
    ∷ "_"
    ∷ [])

abbrev pub telegram_request : Std → Telegram → Notification → Request
telegram_request std t notif = record {
  method = "POST";
  url = concat ("https://api.telegram.org/bot" ∷ t.token ∷ "/sendMessage" ∷ []);
  headers = ("Content-Type", "application/json") ∷ [];
  body = or_nil (
      std.codec.marshal (
        of_strings (
          ("chat_id", t.chat_id)
          ∷ ("text", telegram_text std notif)
          ∷ ("parse_mode", "Markdown")
          ∷ [])));
}

unfoldable pub telegram_send : Std → Network → Telegram → Notification → ℕ → Sending
telegram_send std net t notif attempt =
    if str_eq t.token "" || str_eq t.chat_id ""
    then ([], none)
    else post net "creating telegram request: " "telegram API call: "
        "telegram API returned status " is_ok (telegram_request std t notif) attempt

abbrev pub telegram_channel : Std → Network → Telegram → Channel
telegram_channel std net t = record { name = "telegram"; send = telegram_send std net t }
