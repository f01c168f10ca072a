-- ===== src/System/Balance.antt =====
-- What is kept of the payloads of the accepted notifications, and what the worker has done with them.
use rdispatch.Common.{ℕ, ap, ◌≡◌, ◌∙◌, List, [], ◌++◌, Perm, map, All}
use rdispatch.Common.Float.{Float64}
use rdispatch.Common.Json.{Codec, Result, ok, err}
use rdispatch.Priority.Item.{Item}
use rdispatch.Priority.Push.{IsValid}
use rdispatch.Dlq.Window.{IsValid as IsBounded}
use rdispatch.Delivery.Notification.{Notification, Channel}
use rdispatch.Delivery.Worker.{Surroundings, Worker, Handled}
use rdispatch.Delivery.Letters.{outcomes_from, Handles}
use rdispatch.Gateway.Router.{Chi}
use rdispatch.Gateway.Session.{added_all}
use rdispatch.System.Stream.{Stream}
use rdispatch.System.Steps.{System, payloads}

module _ (fl : Float64) (B : Type 0) (chi : Chi) (codec : Codec) (jetstream : Stream B)
    (channels : List Channel) where
  -- All payloads that the system has taken on: those of the accepted calls, and the unconfirmed copies.
  abbrev pub taken : System fl B → List (List ℕ)
  taken s = payloads (added_all chi codec s.calls) ++ s.unconfirmed

  -- Where they may be: queued, in the stream, acknowledged, expired, or stranded.
  abbrev pub kept :
      List Item → B → List (List ℕ × Handled fl) → List (List ℕ) → List (List ℕ) → List (List ℕ)
  kept items b acked expired stranded =
      payloads items ++ (jetstream.pending b ++ (map (λ a. a.0) acked ++ (expired ++ stranded)))

  -- What the worker has done with a payload that it acknowledges: if `Unmarshal` refuses it nothing, and
  -- otherwise one `Do` for each channel.
  abbrev pub TreatedAs : Result Notification → List ℕ → Handled fl → Type 0
  TreatedAs (err e) p h = h.outcomes ≡ []
  TreatedAs (ok notif) p h =
      (around : Surroundings fl.F) × (h.outcomes ≡ outcomes_from fl around p notif 0 channels)

  abbrev pub Treated : List ℕ × Handled fl → Type 0
  Treated (p, h) = (h.acks ≡ 1) × TreatedAs (codec.unmarshal p) p h

  pub record IsBalanced (s : System fl B) : Type 0 where
    pub valid : IsValid s.server.queue
    pub bounded : IsBounded 10000 s.worker.dlq
    pub same_channels : s.worker.channels ≡ channels
    pub balance : Perm (taken s) (kept s.server.queue.items s.stream s.acked s.expired s.stranded)
    pub treated : All Treated s.acked

  pub treat :
      (r : Result Notification) (p : List ℕ) (n : ℕ) (around : Surroundings fl.F) (w w' : Worker fl)
      (h : Handled fl)
      → w.channels ≡ channels
      → Handles fl around p n w r (h, w')
      → TreatedAs r p h
  treat (err e) p n around w w' h same (none_tried, k) = none_tried
  treat (ok notif) p n around w w' h same (tried, k) =
      (around, tried ∙ ap (outcomes_from fl around p notif 0) same)
