-- ===== src/Gateway/Rest.antt =====
-- internal/gateway/rest.go: the handlers of the REST server.
use rdispatch.Common.{
  ℕ, String, Bool, true, Option, none, some, List, Run, done, ◌>>=◌, str_eq, ◌&&◌, if◌then◌else◌,
}
use rdispatch.Common.Int.{pos}
use rdispatch.Common.Text.{decimal}
use rdispatch.Common.Json.{
  Json, null, bool, number, text, object, Fields, end, field, of_strings, Result, ok, err, or_nil,
  Codec,
}
use rdispatch.Priority.Level.{Level, to_string, parse_level}
use rdispatch.Priority.Item.{Item}
use rdispatch.Priority.Queue.{Queue, push, len}

-- `metadata` is `none` for the nil map.
pub record SendRequest : Type 0 where
  pub priority : String
  pub recipient : String
  pub subject : String
  pub body : String
  pub channel : String
  pub source : String
  pub metadata : Option (List (String × String))

pub record SendResponse : Type 0 where
  pub notification_id : String
  pub accepted : Bool
  pub priority : String

-- An answer: the header, the status code and the JSON body.
pub record Reply : Type 0 where
  pub content_type : String
  pub status : ℕ
  pub body : Fields

abbrev pub status_ok : ℕ
status_ok = 200

abbrev pub status_accepted : ℕ
status_accepted = 202

abbrev pub status_bad_request : ℕ
status_bad_request = 400

-- The state of `Server`; the logger is left out.
pub record Server : Type 0 where
  pub queue : Queue

-- The JSON of a response, by the tags of its struct.
unfoldable pub response_fields : SendResponse → Fields
response_fields r =
    field "notification_id" (text r.notification_id)
      (field "accepted" (bool r.accepted) (field "priority" (text r.priority) end))

unfoldable pub write_json : ℕ → Fields → Reply
write_json status v = record { content_type = "application/json"; status = status; body = v }

unfoldable pub write_error : ℕ → String → Reply
write_error status msg = write_json status (field "error" (text msg) end)

unfoldable pub metadata_json : Option (List (String × String)) → Json
metadata_json none = null
metadata_json (some m) = object (of_strings m)

-- The map that is marshalled into the payload.
unfoldable pub payload_fields : String → Level → SendRequest → Fields
payload_fields id level req = field "notification_id" (text id) (
    field "priority" (text (to_string level)) (
      field "recipient" (text req.recipient) (
        field "subject" (text req.subject) (
          field "body" (text req.body) (
            field "channel" (text req.channel) (
              field "source" (text req.source)
                (field "metadata" (metadata_json req.metadata) end)))))))

-- The item that `handleSend` queues.
unfoldable pub item_of : Codec → String → ℕ → SendRequest → Item
item_of codec id now req =
    let level = parse_level req.priority in
    record {
      id = id;
      priority = level;
      payload = or_nil (codec.marshal (payload_fields id level req));
      created_at = now;
    }

-- `handleSend` past the decoding, with the new identifier and the time.
unfoldable pub accept : Codec → Server → String → ℕ → SendRequest → Run (Server × Reply)
accept codec s id now req =
    if str_eq req.body "" && str_eq req.subject ""
    then done (s, write_error status_bad_request "subject or body is required")
    else (push s.queue (item_of codec id now req) >>= λ q. done (
      record s { queue = q },
      write_json status_accepted (
          response_fields (record {
            notification_id = id;
            accepted = true;
            priority = to_string (parse_level req.priority);
          })),
    ))

-- `handleSend`, on what the body decodes to.
unfoldable pub handle_send : Codec → Server → String → ℕ → Result SendRequest → Run (Server × Reply)
handle_send codec s id now (err e) = done (s, write_error status_bad_request "invalid JSON body")
handle_send codec s id now (ok req) = accept codec s id now req

unfoldable pub handle_health : Server → Server × Reply
handle_health s = (s, write_json status_ok (field "status" (text "ok") end))

unfoldable pub handle_queue_stats : Server → Server × Reply
handle_queue_stats s =
    (s, write_json status_ok (field "queue_depth" (number (decimal (pos (len s.queue)))) end))
