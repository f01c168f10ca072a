-- ===== src/Gateway/RestLaws.antt =====
-- What a client of the REST server gets, and what the delivery worker reads of it.
use rdispatch.Common.{
  ℕ, String, some, ◌∷◌, str_eq, ◌&&◌, ◌≡◌, refl, ap, sym, ◌∙◌, Perm, Yields, yields, Yields-then,
  Bool-cases, inl, inr, if◌then◌else◌,
}
use rdispatch.Common.Json.{
  text, lookup, Result, ok, err, or_nil, Codec, IsCodec, IsPlain, IsPlainValue, SameValue, SameMap,
}
use rdispatch.Priority.Level.{Level, to_string, parse_level}
use rdispatch.Priority.Push.{IsValid, push-Holds}
use rdispatch.Delivery.Notification.{
  Notification, string_or, notification_id, notification_priority, notification_recipient,
}
use rdispatch.Gateway.Rest.{
  SendRequest, Reply, status_accepted, status_bad_request, Server, payload_fields, metadata_json,
  item_of, accept, handle_send, write_error, write_json, response_fields,
}

-- Refused: the status is 400 and the queue is as it was.
abbrev pub Refused : Server → Server × Reply → Type 0
Refused s r = (r.0 ≡ s) × (r.1.status ≡ status_bad_request)

-- Accepted: the status is 202, the body carries the identifier and the level, and the queue is a heap
-- of the old items and the new one.
pub record Queued (codec : Codec) (s : Server) (id : String) (now : ℕ) (req : SendRequest)
    (r : Server × Reply) : Type 0 where
  pub status : r.1.status ≡ status_accepted
  pub named : lookup "notification_id" r.1.body ≡ some (text id)
  pub levelled : lookup "priority" r.1.body ≡ some (text (to_string (parse_level req.priority)))
  pub valid : IsValid r.0.queue
  pub grown : Perm r.0.queue.items (item_of codec id now req ∷ s.queue.items)

-- The answer to what a body decodes to.
abbrev pub Answers : Codec → Server → String → ℕ → Result SendRequest → Server × Reply → Type 0
Answers codec s id now (err e) r = Refused s r
Answers codec s id now (ok req) r =
    if str_eq req.body "" && str_eq req.subject "" then Refused s r else Queued codec s id now req r

-- `handleSend` answers every request: a body that is no request, and a request with neither subject
-- nor body, with 400 and nothing queued; any other with 202, its identifier and its level, and then
-- exactly one item has joined the heap.
pub handle_send-Answers :
    (codec : Codec) (s : Server) (id : String) (now : ℕ) (decoded : Result SendRequest)
    → IsValid s.queue
    → Yields (Answers codec s id now decoded) (handle_send codec s id now decoded)
unfolding handle_send accept response_fields write_error write_json lookup
handle_send-Answers codec s id now (err e) v = yields (refl, refl)
handle_send-Answers codec s id now (ok req) v =
    elim (Bool-cases (str_eq req.body "" && str_eq req.subject "")) [
      | inl e ↦ rw e (yields (rw e (refl, refl)))
      | inr e ↦ rw e (
          Yields-then (push-Holds s.queue (item_of codec id now req) v) λ q (w, same). yields (
            rw e
              (record { status = refl; named = refl; levelled = refl; valid = w; grown = same })))
    ]

-- The metadata of a request are a map: every key once.
abbrev pub HasMetadata : SendRequest → Type 0
HasMetadata req = IsPlainValue (metadata_json req.metadata)

pub payload_fields-IsPlain :
    (id : String) (level : Level) (req : SendRequest)
    → HasMetadata req
    → IsPlain (payload_fields id level req)
unfolding payload_fields lookup
payload_fields-IsPlain id level req h = (
  tt,
  refl,
  (tt, refl, (tt, refl, (tt, refl, (tt, refl, (tt, refl, (tt, refl, (h, refl, tt))))))),
)

-- The metadata of a request as the worker finds them.
abbrev pub SameMetadata : SendRequest → Notification → Type 0
SameMetadata req n = SameValue (some (metadata_json req.metadata)) (lookup "metadata" n)

-- What the worker reads in a notification.
pub record Reads (id : String) (req : SendRequest) (n : Notification) : Type 0 where
  pub same_id : notification_id n ≡ id
  pub same_priority : notification_priority n ≡ to_string (parse_level req.priority)
  pub same_recipient : notification_recipient n ≡ req.recipient
  pub same_subject : lookup "subject" n ≡ some (text req.subject)
  pub same_body : lookup "body" n ≡ some (text req.body)
  pub same_channel : lookup "channel" n ≡ some (text req.channel)
  pub same_source : lookup "source" n ≡ some (text req.source)
  pub same_metadata : SameMetadata req n

-- A map that answers every lookup as the payload does is read as the request.
pub Reads-of_SameMap :
    (id : String) (req : SendRequest) (n : Notification)
    → SameMap (payload_fields id (parse_level req.priority) req) n
    → Reads id req n
unfolding payload_fields lookup notification_id notification_priority notification_recipient
Reads-of_SameMap id req n same = record {
  same_id = ap (string_or "") (sym (same "notification_id"));
  same_priority = ap (string_or "LOW") (sym (same "priority"));
  same_recipient = ap (string_or "") (sym (same "recipient"));
  same_subject = sym (same "subject");
  same_body = sym (same "body");
  same_channel = sym (same "channel");
  same_source = sym (same "source");
  same_metadata = same "metadata";
}

-- With a JSON codec that decodes what it encodes, the payload that the gateway queues decodes, in the
-- worker, to a notification with the identifier, the name of the level, the recipient, the subject,
-- the body, the channel, the source and the metadata of the request.
pub payload-Reads :
    (codec : Codec) (id : String) (now : ℕ) (req : SendRequest)
    → IsCodec codec
    → HasMetadata req
    → (n : Notification) × (codec.unmarshal (item_of codec id now req).payload ≡ ok n)
      × Reads id req n
unfolding item_of
payload-Reads codec id now req c h =
    let (b, m, n, u, same) =
      c (payload_fields id (parse_level req.priority) req)
        (payload_fields-IsPlain id (parse_level req.priority) req h) in
    (n, ap codec.unmarshal (ap or_nil m) ∙ u, Reads-of_SameMap id req n same)
