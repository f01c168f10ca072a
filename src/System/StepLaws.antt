-- ===== src/System/StepLaws.antt =====
-- What each step of the composed system does with the payloads.
use mathlib.Core.List.Perm
use rdispatch.Common.{
  ℕ, ◌≡◌, refl, ◌∙◌, List, [], ◌∷◌, ◌++◌, Perm, done, map, meet, Yields-at, arith,
}
use rdispatch.Common.Float.{Float64}
use rdispatch.Common.Json.{Codec}
use rdispatch.Priority.Item.{Item}
use rdispatch.Priority.Queue.{Queue, new}
use rdispatch.Common.Int.{pos}
use rdispatch.Dlq.Memory.{Memory, new_memory}
use rdispatch.Dlq.Capacity.{new_memory-IsValid}
use rdispatch.Delivery.Notification.{Channel}
use rdispatch.Delivery.Worker.{Surroundings, Worker, Handled, handle_message}
use rdispatch.Delivery.Letters.{handle_message-Handles}
use rdispatch.Gateway.Rest.{Server, Reply}
use rdispatch.Gateway.Router.{Chi, Call, respond}
use rdispatch.Gateway.RouterLaws.{IsRouting, api}
use rdispatch.Gateway.Session.{added, added_at, added_all, respond-Responds}
use rdispatch.Gateway.Drainer.{Moment, publishes, fails}
use rdispatch.Gateway.DrainerLaws.{RoundEnds, published, failed}
use rdispatch.System.Stream.{Stream, Splits, IsWorkQueue}
use rdispatch.System.Bags.{
  payloads-append, payloads-perm, grown_bag, forwarded_bag, copied_bag, acked_bag, expired_bag,
  stranded_bag,
}
use rdispatch.System.Steps.{System, payloads, launched}
use rdispatch.System.Balance.{taken, IsBalanced, treat}

module _ (fl : Float64) (B : Type 0) (chi : Chi) (codec : Codec) (jetstream : Stream B)
    (channels : List Channel) where
  abbrev Balanced : System fl B → Type 0
  Balanced = IsBalanced fl B chi codec jetstream channels

  module _ (routing : IsRouting chi) (lasting : IsWorkQueue jetstream) where
    pub launch-IsBalanced :
        (b : B) (dlq : Memory)
        → jetstream.pending b ≡ []
        → new_memory (pos 10000) ≡ done dlq
        → Balanced (launched fl B channels b dlq)
    unfolding launched new added_all
    launch-IsBalanced b dlq none_pending e = record {
      valid = λ c x y. absurd (omega arith);
      bounded = Yields-at (new_memory-IsValid 10000 (omega arith)) e;
      same_channels = refl;
      balance = rw none_pending Perm.rfl;
      treated = tt;
    }

    pub answers-IsBalanced :
        (s : System fl B) (c : Call) (server : Server) (reply : Reply)
        → respond chi codec s.server c ≡ done (server, reply)
        → Balanced s
        → Balanced (record s { server = server; calls = c ∷ s.calls })
    unfolding added_all added
    answers-IsBalanced s c server reply e i =
        let r = Yields-at (respond-Responds chi codec s.server c routing i.valid) e in
        let rest =
          jetstream.pending s.stream ++ (map (λ a. a.0) s.acked ++ (s.expired ++ s.stranded)) in
        record {
          valid = r.valid;
          bounded = i.bounded;
          same_channels = i.same_channels;
          balance =
              rw
                (payloads-append (added_at chi codec c (api c.method c.path))
                  (added_all chi codec s.calls))
                (grown_bag (payloads (added_at chi codec c (api c.method c.path)))
                  (payloads (added_all chi codec s.calls)) s.unconfirmed
                  (payloads s.server.queue.items) rest (payloads server.queue.items) i.balance
                  (rw
                    (← payloads-append (added_at chi codec c (api c.method c.path))
                      s.server.queue.items)
                    (payloads-perm r.grown)));
          treated = i.treated;
        }

    pub forwards-IsBalanced :
        (s : System fl B) (m : Moment) (x : Item) (q : Queue)
        → m.arrivals ≡ []
        → RoundEnds m (m.arrivals ++ s.server.queue.items) (publishes x) q
        → Balanced s
        → Balanced (record s {
          server = record { queue = q };
          stream = jetstream.store x.payload s.stream;
        })
    forwards-IsBalanced s m x q none_new (published _ e v same top) i = record {
      valid = v;
      bounded = i.bounded;
      same_channels = i.same_channels;
      balance =
          forwarded_bag (taken fl B chi codec jetstream channels s) (payloads s.server.queue.items)
            (jetstream.pending s.stream) (map (λ a. a.0) s.acked ++ (s.expired ++ s.stranded))
            i.balance (Perm.symm (payloads-perm (rw none_new at same)))
            (lasting.stored x.payload s.stream);
      treated = i.treated;
    }

    pub keeps-IsBalanced :
        (s : System fl B) (m : Moment) (x : Item) (q : Queue)
        → m.arrivals ≡ []
        → RoundEnds m (m.arrivals ++ s.server.queue.items) (fails x) q
        → Balanced s
        → Balanced (record s { server = record { queue = q } })
    keeps-IsBalanced s m x q none_new (failed _ e v same) i =
        let rest =
          jetstream.pending s.stream ++ (map (λ a. a.0) s.acked ++ (s.expired ++ s.stranded)) in
        record {
          valid = v;
          bounded = i.bounded;
          same_channels = i.same_channels;
          balance = meet i.balance (Perm.append_right rest (payloads-perm (rw none_new at same)));
          treated = i.treated;
        }

    pub keeps_and_stores-IsBalanced :
        (s : System fl B) (m : Moment) (x : Item) (q : Queue)
        → m.arrivals ≡ []
        → RoundEnds m (m.arrivals ++ s.server.queue.items) (fails x) q
        → Balanced s
        → Balanced (record s {
          server = record { queue = q };
          stream = jetstream.store x.payload s.stream;
          unconfirmed = x.payload ∷ s.unconfirmed;
        })
    keeps_and_stores-IsBalanced s m x q none_new (failed _ e v same) i = record {
      valid = v;
      bounded = i.bounded;
      same_channels = i.same_channels;
      balance =
          copied_bag (payloads (added_all chi codec s.calls)) s.unconfirmed
            (payloads s.server.queue.items) (jetstream.pending s.stream)
            (map (λ a. a.0) s.acked ++ (s.expired ++ s.stranded)) i.balance
            (payloads-perm (rw none_new at same)) (lasting.stored x.payload s.stream);
      treated = i.treated;
    }

    pub delivers-IsBalanced :
        (s : System fl B) (around : Surroundings fl.F) (p : List ℕ) (rest : List (List ℕ))
        (h : Handled fl) (w : Worker fl)
        → Splits (jetstream.pending s.stream) p rest
        → handle_message fl codec around s.worker p ≡ done (h, w)
        → Balanced s
        → Balanced (record s {
          stream = jetstream.remove p s.stream;
          worker = w;
          acked = (p, h) ∷ s.acked;
        })
    delivers-IsBalanced s around p rest h w split e i =
        let (k, handled) =
          Yields-at (handle_message-Handles fl around p codec s.worker 10000 i.bounded) e in
        record {
          valid = i.valid;
          bounded = k.valid;
          same_channels = k.channels ∙ i.same_channels;
          balance =
              acked_bag (taken fl B chi codec jetstream channels s) (payloads s.server.queue.items)
                (jetstream.pending s.stream) (map (λ a. a.0) s.acked) (s.expired ++ s.stranded)
                i.balance split (lasting.removed p rest s.stream split);
          treated = (
            (
              k.acked,
              treat fl B chi codec jetstream channels (codec.unmarshal p) p 10000 around s.worker w
                  h i.same_channels handled,
            ),
            i.treated,
          );
        }

    pub repeats-IsBalanced :
        (s : System fl B) (around : Surroundings fl.F) (p : List ℕ) (h : Handled fl) (w : Worker fl)
        → handle_message fl codec around s.worker p ≡ done (h, w)
        → Balanced s
        → Balanced (record s { worker = w })
    repeats-IsBalanced s around p h w e i =
        let (k, handled) =
          Yields-at (handle_message-Handles fl around p codec s.worker 10000 i.bounded) e in
        record {
          valid = i.valid;
          bounded = k.valid;
          same_channels = k.channels ∙ i.same_channels;
          balance = i.balance;
          treated = i.treated;
        }

    pub expires-IsBalanced :
        (s : System fl B) (p : List ℕ) (rest : List (List ℕ))
        → Splits (jetstream.pending s.stream) p rest
        → Balanced s
        → Balanced (record s { stream = jetstream.remove p s.stream; expired = p ∷ s.expired })
    expires-IsBalanced s p rest split i = record {
      valid = i.valid;
      bounded = i.bounded;
      same_channels = i.same_channels;
      balance =
          expired_bag (taken fl B chi codec jetstream channels s) (payloads s.server.queue.items)
            (jetstream.pending s.stream) (map (λ a. a.0) s.acked) s.expired s.stranded i.balance
            split (lasting.removed p rest s.stream split);
      treated = i.treated;
    }

    pub restarts_gateway-IsBalanced :
        (s : System fl B)
        → Balanced s
        → Balanced (record s {
          server = record { queue = new };
          stranded = payloads s.server.queue.items ++ s.stranded;
        })
    unfolding new
    restarts_gateway-IsBalanced s i = record {
      valid = λ c a b. absurd (omega arith);
      bounded = i.bounded;
      same_channels = i.same_channels;
      balance =
          stranded_bag (taken fl B chi codec jetstream channels s) (payloads s.server.queue.items)
            (jetstream.pending s.stream) (map (λ a. a.0) s.acked) s.expired s.stranded i.balance;
      treated = i.treated;
    }

    pub restarts_within-IsBalanced :
        (s : System fl B) (x : Item) (rest : List Item)
        → Perm s.server.queue.items (x ∷ rest)
        → Balanced s
        → Balanced (record s {
          server = record { queue = new };
          stream = jetstream.store x.payload s.stream;
          stranded = payloads rest ++ s.stranded;
        })
    unfolding new
    restarts_within-IsBalanced s x rest split i = record {
      valid = λ c a b. absurd (omega arith);
      bounded = i.bounded;
      same_channels = i.same_channels;
      balance =
          stranded_bag (taken fl B chi codec jetstream channels s) (payloads rest)
            (jetstream.pending (jetstream.store x.payload s.stream)) (map (λ a. a.0) s.acked)
            s.expired s.stranded
            (forwarded_bag (taken fl B chi codec jetstream channels s)
              (payloads s.server.queue.items) (jetstream.pending s.stream)
              (map (λ a. a.0) s.acked ++ (s.expired ++ s.stranded)) i.balance (payloads-perm split)
              (lasting.stored x.payload s.stream));
      treated = i.treated;
    }
