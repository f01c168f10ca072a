-- ===== src/System/Arrived.antt =====
-- What becomes of an accepted notification, with encoding/json in both processes.
use mathlib.Core.List.Memᴰ
use mathlib.Core.List.{Memᴰ}
use mathlib.Core.List.Perm
use mathlib.Core.Logic.{∥∥₁_elim, ∥∥₁_prop}
use rdispatch.Common.{ℕ, ◌≡◌, refl, sym, subst, some, inl, inr, List, [], ◌∷◌, Mem, done, map, All}
use rdispatch.Common.Float.{Float64}
use rdispatch.Encoding.Codec.{encoding_json, encoding_json-IsCodec}
use rdispatch.Common.Int.{pos}
use rdispatch.Dlq.Memory.{Memory, new_memory}
use rdispatch.Delivery.Notification.{Notification, Channel}
use rdispatch.Delivery.Worker.{Surroundings, Handled}
use rdispatch.Delivery.Letters.{outcomes_from}
use rdispatch.Gateway.Rest.{SendRequest, item_of}
use rdispatch.Gateway.RestLaws.{HasMetadata, Reads, payload-Reads}
use rdispatch.Gateway.Router.{send_endpoint, Chi, Call}
use rdispatch.Gateway.RouterLaws.{IsRouting, api}
use rdispatch.Gateway.Session.{acceptable, added, added_all}
use rdispatch.System.Stream.{Stream, IsWorkQueue}
use rdispatch.System.Steps.{System, payloads, launched, Steps}
use rdispatch.System.Balance.{Treated, TreatedAs, taken, kept}
use rdispatch.System.Conserved.{launched-IsBalanced}

All-at : {A : Type 0} (P : A → Type 0) (x : A) (xs : List A) → All P xs → Memᴰ x xs → P x
All-at P x (y ∷ ys) (p, ps) m = elim (Memᴰ.cases_cons m) [
  | inl e ↦ subst P (sym e) p
  | inr later ↦ All-at P x ys ps later
]
All-at P x [] a m = absurd (Memᴰ.not-nil m)

-- The calls that queue a notification.
pub record Accepts (c : Call) (req : SendRequest) : Type 0 where
  pub sends : api c.method c.path ≡ some send_endpoint
  pub request : acceptable c.decoded ≡ some req

module _ (fl : Float64) (B : Type 0) (chi : Chi) (jetstream : Stream B)
    (channels : List Channel) where
  abbrev pub payload_of : Call → SendRequest → List ℕ
  payload_of c req = (item_of encoding_json c.id c.now req).payload

  -- The notification of a call was given to all channels.
  pub record Arrived (c : Call) (req : SendRequest) (h : Handled fl) : Type 0 where
    pub notif : Notification
    pub reads : Reads c.id req notif
    pub around : Surroundings fl.F
    pub outcomes : h.outcomes ≡ outcomes_from fl around (payload_of c req) notif 0 channels
    pub acked : h.acks ≡ 1

  -- Where it may be.
  pub data Whereabouts (t : System fl B) (c : Call) (req : SendRequest) : Type 0 where
    queued : Memᴰ (payload_of c req) (payloads t.server.queue.items) → Whereabouts t c req
    streamed : Memᴰ (payload_of c req) (jetstream.pending t.stream) → Whereabouts t c req
    arrived :
        (h : Handled fl)
        → Memᴰ (payload_of c req, h) t.acked
        → Arrived c req h
        → Whereabouts t c req
    expired : Memᴰ (payload_of c req) t.expired → Whereabouts t c req
    stranded : Memᴰ (payload_of c req) t.stranded → Whereabouts t c req

  added-Mem :
      (c : Call) (req : SendRequest)
      → Accepts c req
      → Memᴰ (item_of encoding_json c.id c.now req) (added chi encoding_json c)
  unfolding added
  added-Mem c req a = rw (a.sends, a.request) (Memᴰ.head refl)

  added_all-Mem :
      (cs : List Call) (c : Call) (req : SendRequest)
      → Accepts c req
      → Memᴰ c cs
      → Memᴰ (item_of encoding_json c.id c.now req) (added_all chi encoding_json cs)
  unfolding added_all
  added_all-Mem [] c req a m = absurd (Memᴰ.not-nil m)
  added_all-Mem (d ∷ cs) c req a m = elim (Memᴰ.cases_cons m) [
    | inl e ↦ Memᴰ.append_left (added_all chi encoding_json cs) (
        subst (λ d. Memᴰ (item_of encoding_json c.id c.now req) (added chi encoding_json d)) e
          (added-Mem c req a))
    | inr later ↦ Memᴰ.append_right (added chi encoding_json d) (added_all-Mem cs c req a later)
  ]

  Treated-Arrived :
      (c : Call) (req : SendRequest) (h : Handled fl)
      → HasMetadata req
      → Treated fl B chi encoding_json jetstream channels (payload_of c req, h)
      → Arrived c req h
  Treated-Arrived c req h m (once, as_read) =
      let (notif, decodes, reads) =
        payload-Reads encoding_json c.id c.now req encoding_json-IsCodec m in
      let (around, tried) =
        subst (λ d. TreatedAs fl B chi encoding_json jetstream channels d (payload_of c req) h)
          decodes as_read in
      record { notif = notif; reads = reads; around = around; outcomes = tried; acked = once }

  kept-Whereabouts :
      (t : System fl B) (c : Call) (req : SendRequest)
      → HasMetadata req
      → All (Treated fl B chi encoding_json jetstream channels) t.acked
      → Memᴰ (payload_of c req) (
          kept fl B chi encoding_json jetstream channels t.server.queue.items t.stream t.acked
            t.expired t.stranded)
      → Whereabouts t c req
  kept-Whereabouts t c req m a k = elim (Memᴰ.append_cases (payloads t.server.queue.items) k) [
    | inl x ↦ queued x
    | inr k ↦ elim (Memᴰ.append_cases (jetstream.pending t.stream) k) [
      | inl x ↦ streamed x
      | inr k ↦ elim (Memᴰ.append_cases (map (λ a. a.0) t.acked) k) [
        | inl x ↦
            let ((p, h), there, e) = Memᴰ.of_map (λ a. a.0) t.acked x in
            let here : Memᴰ (payload_of c req, h) t.acked =
              subst (λ p. Memᴰ (p, h) t.acked) e there in
            arrived h here (Treated-Arrived c req h m (All-at _ _ t.acked a here))
        | inr k ↦ elim (Memᴰ.append_cases t.expired k) [ inl x ↦ expired x | inr x ↦ stranded x ]
      ]
    ]
  ]

  module _ (routing : IsRouting chi) (lasting : IsWorkQueue jetstream) where
    -- Gateway and worker start with nothing in the stream and an empty dead letter queue, the router serves
    -- the routes and no others, and the stream keeps what it stores. After any steps, an accepted call
    -- whose metadata have each key once has its payload queued, in the stream, too old for it, queued when
    -- a gateway stopped, or acknowledged; and then every channel of the worker was tried, in order, with a
    -- notification that has the fields of the request.
    pub accepted-Arrived :
        (b : B) (dlq : Memory) (t : System fl B) (c : Call) (req : SendRequest)
        → jetstream.pending b ≡ []
        → new_memory (pos 10000) ≡ done dlq
        → Steps fl B chi encoding_json jetstream (launched fl B channels b dlq) t
        → Mem c t.calls
        → Accepts c req
        → HasMetadata req
        → ∥ Whereabouts t c req ∥₁
    accepted-Arrived b dlq t c req none_pending e steps called a m =
        let i =
          launched-IsBalanced fl B chi encoding_json jetstream channels routing lasting b dlq t
            none_pending e steps in
        ∥∥₁_elim called ∥∥₁_prop λ called.
          let among : Memᴰ (payload_of c req) (taken fl B chi encoding_json jetstream channels t) =
            Memᴰ.append_left t.unconfirmed
              (Memᴰ.map (λ x. x.payload) (added_all-Mem t.calls c req a called)) in
          ∥∥₁_elim ((Perm.mem_iff i.balance).0 ∣ among ∣₁) ∥∥₁_prop
            λ k. ∣ kept-Whereabouts t c req m i.treated k ∣₁
