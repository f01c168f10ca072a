-- ===== src/System/Steps.antt =====
-- The steps of the composed system: the calls of the gateway's clients, the rounds of `drainQueue`, the
-- messages of the worker, and restarts of both processes. A round is one step; Gateway.Loop has its parts.
use rdispatch.Common.{ℕ, ◌≡◌, List, [], ◌∷◌, ◌++◌, Perm, done, map}
use rdispatch.Common.Int.{pos}
use rdispatch.Common.Float.{Float64}
use rdispatch.Common.Json.{Codec}
use rdispatch.Priority.Item.{Item}
use rdispatch.Priority.Queue.{Queue, new}
use rdispatch.Dlq.Memory.{Memory, new_memory}
use rdispatch.Delivery.Notification.{Channel}
use rdispatch.Delivery.Worker.{Surroundings, Worker, Handled, handle_message}
use rdispatch.Gateway.Rest.{Server, Reply}
use rdispatch.Gateway.Router.{Chi, Call, respond}
use rdispatch.Gateway.Drainer.{Moment, publishes, fails, drain_round}
use rdispatch.System.Stream.{Stream, Splits}

-- The payloads of items.
abbrev pub payloads : List Item → List (List ℕ)
payloads xs = map (λ x. x.payload) xs

module _ (fl : Float64) (B : Type 0) where
  -- The two processes and the stream, with a record of what has happened: the calls that the gateway has
  -- answered, the payloads that were stored although `Publish` reported an error, those that the worker
  -- has acknowledged, with what it did, those that were too old, and those that were queued, or in the hand of
  -- `drainQueue`, when a gateway stopped.
  pub record System : Type 0 where
    pub server : Server
    pub stream : B
    pub worker : Worker fl
    pub calls : List Call
    pub unconfirmed : List (List ℕ)
    pub acked : List (List ℕ × Handled fl)
    pub expired : List (List ℕ)
    pub stranded : List (List ℕ)

  -- Both processes at their start, with a worker of some channels.
  unfoldable pub launched : List Channel → B → Memory → System
  launched channels b dlq = record {
    server = record { queue = new };
    stream = b;
    worker = record { channels = channels; dlq = dlq };
    calls = [];
    unconfirmed = [];
    acked = [];
    expired = [];
    stranded = [];
  }

  module _ (chi : Chi) (codec : Codec) (jetstream : Stream B) where
    pub data Step : System → System → Type 0 where
      -- a client calls
      answers :
          {s : System} (c : Call) {server : Server} {reply : Reply}
          → respond chi codec s.server c ≡ done (server, reply)
          → Step s (record s { server = server; calls = c ∷ s.calls })
      -- a round of `drainQueue`: the item is published, or `Publish` fails, with the item stored or not
      forwards :
          {s : System} (m : Moment) (x : Item) {q : Queue}
          → m.arrivals ≡ []
          → drain_round m s.server.queue ≡ done (publishes x, q)
          → Step s (record s {
            server = record { queue = q };
            stream = jetstream.store x.payload s.stream;
          })
      keeps :
          {s : System} (m : Moment) (x : Item) {q : Queue}
          → m.arrivals ≡ []
          → drain_round m s.server.queue ≡ done (fails x, q)
          → Step s (record s { server = record { queue = q } })
      keeps_and_stores :
          {s : System} (m : Moment) (x : Item) {q : Queue}
          → m.arrivals ≡ []
          → drain_round m s.server.queue ≡ done (fails x, q)
          → Step s (record s {
            server = record { queue = q };
            stream = jetstream.store x.payload s.stream;
            unconfirmed = x.payload ∷ s.unconfirmed;
          })
      -- the worker fetches a message and handles it; the acknowledgement arrives, or it does not and the
      -- message stays
      delivers :
          {s : System} (around : Surroundings fl.F) (p : List ℕ) (rest : List (List ℕ))
          {h : Handled fl} {w : Worker fl}
          → Splits (jetstream.pending s.stream) p rest
          → handle_message fl codec around s.worker p ≡ done (h, w)
          → Step s (record s {
            stream = jetstream.remove p s.stream;
            worker = w;
            acked = (p, h) ∷ s.acked;
          })
      repeats :
          {s : System} (around : Surroundings fl.F) (p : List ℕ) (rest : List (List ℕ))
          {h : Handled fl} {w : Worker fl}
          → Splits (jetstream.pending s.stream) p rest
          → handle_message fl codec around s.worker p ≡ done (h, w)
          → Step s (record s { worker = w })
      -- a message gets older than `MaxAge`
      expires :
          {s : System} (p : List ℕ) (rest : List (List ℕ))
          → Splits (jetstream.pending s.stream) p rest
          → Step s (record s { stream = jetstream.remove p s.stream; expired = p ∷ s.expired })
      -- a process is started anew, with an empty queue or an empty dead letter queue; `restarts_gateway` has
      -- also an item that is in the hand of `drainQueue` and is not stored among those that are stranded
      restarts_gateway :
          {s : System}
          → Step s (record s {
            server = record { queue = new };
            stranded = payloads s.server.queue.items ++ s.stranded;
          })
      -- the gateway exits while `Publish` runs, and the item in hand has been stored; clients may have called
      -- since it was popped, so that it may be any of the items
      restarts_within :
          {s : System} (x : Item) (rest : List Item)
          → Perm s.server.queue.items (x ∷ rest)
          → Step s (record s {
            server = record { queue = new };
            stream = jetstream.store x.payload s.stream;
            stranded = payloads rest ++ s.stranded;
          })
      restarts_worker :
          {s : System} {dlq : Memory}
          → new_memory (pos 10000) ≡ done dlq
          → Step s (record s { worker = record { channels = s.worker.channels; dlq = dlq } })

    infixr 4 ◌then◌
    pub data Steps : System → System → Type 0 where
      stays : {s : System} → Steps s s
      ◌then◌ : {s t u : System} → Steps s t → Step t u → Steps s u
