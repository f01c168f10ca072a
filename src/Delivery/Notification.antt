-- ===== src/Delivery/Notification.antt =====
-- internal/delivery/channel.go: the notification of a message, and what a channel is.
use rdispatch.Common.{ℕ, String, Option, some, List}
use rdispatch.Common.Json.{Json, text, Fields, lookup}

-- `type Notification map[string]any`.
abbrev pub Notification : Type 0
Notification = Fields

-- `if s, ok := v.(string); ok { return s }; return d`.
unfoldable pub string_or : String → Option Json → String
string_or d (some (text s)) = s
string_or d _ = d

unfoldable pub notification_id : Notification → String
unfolding string_or
notification_id n = string_or "" (lookup "notification_id" n)

unfoldable pub notification_priority : Notification → String
unfolding string_or
notification_priority n = string_or "LOW" (lookup "priority" n)

unfoldable pub notification_recipient : Notification → String
unfolding string_or
notification_recipient n = string_or "" (lookup "recipient" n)

-- An HTTP request as the channels build it.
pub record Request : Type 0 where
  pub method : String
  pub url : String
  pub headers : List (String × String)
  pub body : List ℕ

-- What a `Send` does: the requests that it makes, and the error that it returns, if any.
abbrev pub Sending : Type 0
Sending = List Request × Option String

-- The interface `Channel`. A `Send` is told the number of its attempt, so that the world may answer
-- each attempt differently.
pub record Channel : Type 0 where
  pub name : String
  pub send : Notification → ℕ → Sending
