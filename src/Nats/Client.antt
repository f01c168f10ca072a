-- ===== src/Nats/Client.antt =====
-- `Connect` and `EnsureStream`, with the client library nats.go as a parameter.
use rdispatch.Common.{◌*◌, String, Option, none, some, List, [], ◌∷◌, str_eq, if◌then◌else◌}
use rdispatch.Common.Int.{ℤ, pos, negsuc, ◌==ℤ◌}
use rdispatch.Common.Text.{concat}
use rdispatch.Common.Json.{Result, ok, err}
use rdispatch.Common.Resources.{Effect, opened, closed}
use rdispatch.Retry.Config.{Duration, second}

pub record Config : Type 0 where
  pub url : String

-- What `nats.Connect` is called with.
pub record DialOptions : Type 0 where
  pub url : String
  pub max_reconnects : ℤ
  pub reconnect_wait : Duration
  pub timeout : Duration

-- What `CreateOrUpdateStream` is called with; the retention is always `WorkQueuePolicy`.
pub record StreamSettings : Type 0 where
  pub name : String
  pub subjects : List String
  pub max_age : Duration

-- nats.go: its default URL, `nats.Connect`, `jetstream.New`, and `CreateOrUpdateStream`.
pub record Library (Conn Js : Type 0) : Type 0 where
  pub default_url : String
  pub dial : DialOptions → Result Conn
  pub new_js : Conn → Result Js
  pub create_stream : Js → StreamSettings → Option String

pub record StreamConfig : Type 0 where
  pub name : String
  pub subjects : List String
  pub max_age : Duration

abbrev pub dial_options : String → DialOptions
dial_options url = record {
  url = url;
  max_reconnects = negsuc 0;
  reconnect_wait = pos second;
  timeout = pos (5 * second);
}

module _ {Conn Js : Type 0} (lib : Library Conn Js) where
  -- `if cfg.URL == "" { cfg.URL = nats.DefaultURL }`.
  unfoldable pub url_of : Config → String
  url_of cfg = if str_eq cfg.url "" then lib.default_url else cfg.url

  -- What follows a connection: the JetStream context, or the connection is closed.
  unfoldable pub with_js : Conn → Result Js → List (Effect Conn) × Result (Conn × Js)
  with_js conn (ok js) = (opened conn ∷ [], ok (conn, js))
  with_js conn (err e) =
      (opened conn ∷ closed conn ∷ [], err (concat ("creating JetStream context: " ∷ e ∷ [])))

  unfoldable pub dialled : String → Result Conn → List (Effect Conn) × Result (Conn × Js)
  dialled url (ok conn) = with_js conn (lib.new_js conn)
  dialled url (err e) = ([], err (concat ("connecting to NATS at " ∷ url ∷ ": " ∷ e ∷ [])))

  -- `Connect`.
  unfoldable pub connect : Config → List (Effect Conn) × Result (Conn × Js)
  connect cfg = dialled (url_of cfg) (lib.dial (dial_options (url_of cfg)))

  -- `if maxAge == 0 { maxAge = 24 * time.Hour }`.
  unfoldable pub stream_settings : StreamConfig → StreamSettings
  stream_settings cfg = record {
    name = cfg.name;
    subjects = cfg.subjects;
    max_age = if cfg.max_age ==ℤ pos 0 then pos (86400 * second) else cfg.max_age;
  }

  unfoldable pub stream_error : String → Option String → Option String
  stream_error name none = none
  stream_error name (some e) = some (concat ("creating stream " ∷ name ∷ ": " ∷ e ∷ []))

  -- `EnsureStream`: its error.
  unfoldable pub ensure_stream : Js → StreamConfig → Option String
  ensure_stream js cfg = stream_error cfg.name (lib.create_stream js (stream_settings cfg))
