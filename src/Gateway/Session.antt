-- ===== src/Gateway/Session.antt =====
-- What any sequence of calls is answered, and what it leaves in the queue.
use mathlib.Core.List.Perm
use rdispatch.Common.{
  ℕ, ◌+◌, ◌≡◌, refl, subst, ◌∙◌, Option, none, some, List, [], ◌∷◌, ◌++◌, Perm, str_eq, ◌&&◌,
  Bool-cases, inl, inr, if◌then◌else◌, Yields, yields, Yields-then, Yields-weaken, length,
  length-perm, length-append, reorder,
}
use rdispatch.Common.Int.{pos}
use rdispatch.Common.Text.{decimal}
use rdispatch.Common.Json.{text, number, lookup, Result, ok, err, Codec}
use rdispatch.Priority.Item.{Item}
use rdispatch.Priority.Queue.{len}
use rdispatch.Priority.Push.{IsValid}
use rdispatch.Gateway.Rest.{
  SendRequest, Server, Reply, item_of, status_ok, status_accepted, status_bad_request,
  handle_health, handle_queue_stats, write_json,
}
use rdispatch.Gateway.RestLaws.{Answers, Refused, Queued, handle_send-Answers}
use rdispatch.Gateway.Router.{
  Endpoint, send_endpoint, health_endpoint, queue_stats_endpoint, Chi, Call, answer, respond,
  respond_all,
}
use rdispatch.Gateway.RouterLaws.{IsRouting, api, find-api}

-- The request in a body, if it is one and has a subject or a body.
abbrev pub acceptable : Result SendRequest → Option SendRequest
acceptable (err e) = none
acceptable (ok req) = if str_eq req.body "" && str_eq req.subject "" then none else some req

module _ (chi : Chi) (codec : Codec) where
  -- The item of an acceptable request.
  abbrev pub item_for : Call → Option SendRequest → List Item
  item_for c none = []
  item_for c (some req) = item_of codec c.id c.now req ∷ []

  -- What a call to an endpoint adds to the queue.
  abbrev pub added_at : Call → Option Endpoint → List Item
  added_at c (some send_endpoint) = item_for c (acceptable c.decoded)
  added_at c _ = []

  unfoldable pub added : Call → List Item
  added c = added_at c (api c.method c.path)

  unfoldable pub added_all : List Call → List Item
  added_all [] = []
  added_all (c ∷ cs) = added c ++ added_all cs

  -- The reply of `handleSend`.
  abbrev pub SendReply : Call → Option SendRequest → Reply → Type 0
  SendReply c none r = r.status ≡ status_bad_request
  SendReply c (some req) r =
      (r.status ≡ status_accepted) × (lookup "notification_id" r.body ≡ some (text c.id))

  -- The reply of an endpoint while `depth` items are queued.
  abbrev pub ReplyAt : ℕ → Call → Option Endpoint → Reply → Type 0
  ReplyAt depth c (some send_endpoint) r = SendReply c (acceptable c.decoded) r
  ReplyAt depth c (some health_endpoint) r = r.status ≡ status_ok
  ReplyAt depth c (some queue_stats_endpoint) r =
      (r.status ≡ status_ok) × (lookup "queue_depth" r.body ≡ some (number (decimal (pos depth))))
  ReplyAt depth c none r = r ≡ chi.refuse c.method c.path

  unfoldable pub Replies : ℕ → List Call → List Reply → Type 0
  Replies depth [] [] = Unit
  Replies depth (c ∷ cs) (r ∷ rs) =
      ReplyAt depth c (api c.method c.path) r × Replies (length (added c) + depth) cs rs
  Replies depth [] (r ∷ rs) = ⊥
  Replies depth (c ∷ cs) [] = ⊥

  -- The server after a call, with its reply.
  pub record Responds (s : Server) (c : Call) (e : Option Endpoint) (r : Server × Reply)
      : Type 0 where
    pub valid : IsValid r.0.queue
    pub grown : Perm r.0.queue.items (added_at c e ++ s.queue.items)
    pub reply : ReplyAt (length s.queue.items) c e r.1

  send-Responds :
      (s : Server) (c : Call) (decoded : Result SendRequest) (r : Server × Reply)
      → IsValid s.queue
      → c.decoded ≡ decoded
      → Answers codec s c.id c.now decoded r
      → Responds s c (some send_endpoint) r
  send-Responds s c (err e) r v same (kept, status) = record {
    valid = rw kept v;
    grown = rw (kept, same) Perm.rfl;
    reply = rw same status;
  }
  send-Responds s c (ok req) r v same a =
      elim (Bool-cases (str_eq req.body "" && str_eq req.subject "")) [
        | inl e ↦
            let (kept, status) : Refused s r = rw e at a in
            record {
              valid = rw kept v;
              grown = rw (kept, same, e) Perm.rfl;
              reply = rw (same, e) status;
            }
        | inr e ↦
            let q : Queued codec s c.id c.now req r = rw e at a in
            record {
              valid = q.valid;
              grown = rw (same, e) q.grown;
              reply = rw (same, e) (q.status, q.named);
            }
      ]

  answer-Responds :
      (s : Server) (c : Call) (e : Option Endpoint)
      → IsValid s.queue
      → Yields (Responds s c e) (answer chi codec s c e)
  unfolding answer handle_health handle_queue_stats write_json len lookup
  answer-Responds s c none v = yields (record { valid = v; grown = Perm.rfl; reply = refl })
  answer-Responds s c (some send_endpoint) v =
      Yields-weaken (handle_send-Answers codec s c.id c.now c.decoded v)
        λ r a. send-Responds s c c.decoded r v refl a
  answer-Responds s c (some health_endpoint) v =
      yields (record { valid = v; grown = Perm.rfl; reply = refl })
  answer-Responds s c (some queue_stats_endpoint) v =
      yields (record { valid = v; grown = Perm.rfl; reply = (refl, refl) })

  -- What a call leaves and is answered.
  pub respond-Responds :
      (s : Server) (c : Call)
      → IsRouting chi
      → IsValid s.queue
      → Yields (Responds s c (api c.method c.path)) (respond chi codec s c)
  unfolding respond
  respond-Responds s c i v =
      rw (find-api chi c.method c.path i) (answer-Responds s c (api c.method c.path) v)

  -- The server after some calls, with their replies.
  pub record Session (cs : List Call) (s : Server) (r : Server × List Reply) : Type 0 where
    pub valid : IsValid r.0.queue
    pub grown : Perm r.0.queue.items (added_all cs ++ s.queue.items)
    pub replies : Replies (length s.queue.items) cs r.1

  Session-step :
      (s after last : Server) (c : Call) (cs : List Call) (reply : Reply) (replies : List Reply)
      → Responds s c (api c.method c.path) (after, reply)
      → Session cs after (last, replies)
      → Session (c ∷ cs) s (last, reply ∷ replies)
  unfolding added added_all Replies
  Session-step s after last c cs reply replies a b = record {
    valid = b.valid;
    grown = Perm.trans b.grown (
        Perm.trans (Perm.append_left (added_all cs) a.grown)
          (reorder (added_all cs) (added c) s.queue.items));
    replies = (
      a.reply,
      subst (λ n. Replies n cs replies)
          (length-perm a.grown ∙ length-append (added c) s.queue.items) b.replies,
    );
  }

  -- Any sequence of calls is answered without a panic: a call that is to be queued gets 202 with its
  -- identifier, a bad one 400, the depth that is reported is the number of items queued before, and a call
  -- that is no part of the API changes nothing. In the end exactly the items of the accepted calls have
  -- joined the queue.
  pub respond_all-Session :
      (cs : List Call) (s : Server)
      → IsRouting chi
      → IsValid s.queue
      → Yields (Session cs s) (respond_all chi codec cs s)
  unfolding respond_all added_all Replies
  respond_all-Session [] s i v = yields (record { valid = v; grown = Perm.rfl; replies = tt })
  respond_all-Session (c ∷ cs) s i v = Yields-then (respond-Responds s c i v) λ (after, reply) a.
      Yields-then (respond_all-Session cs after i a.valid)
        λ (last, replies) b. yields (Session-step s after last c cs reply replies a b)
