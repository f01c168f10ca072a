-- ===== src/System/Conserved.antt =====
-- Where the payloads of the accepted notifications are after any steps.
use rdispatch.Common.{◌≡◌, List, [], done, Yields-at, arith}
use rdispatch.Common.Float.{Float64}
use rdispatch.Common.Json.{Codec}
use rdispatch.Common.Int.{pos}
use rdispatch.Dlq.Memory.{Memory, new_memory}
use rdispatch.Dlq.Capacity.{new_memory-IsValid}
use rdispatch.Delivery.Notification.{Channel}
use rdispatch.Gateway.Router.{Chi}
use rdispatch.Gateway.RouterLaws.{IsRouting}
use rdispatch.Gateway.DrainerLaws.{drain_round-RoundEnds}
use rdispatch.System.Stream.{Stream, IsWorkQueue}
use rdispatch.System.Steps.{
  System, Step, answers, forwards, keeps, keeps_and_stores, delivers, repeats, expires,
  restarts_gateway, restarts_within, restarts_worker, launched, Steps, stays, ◌then◌,
}
use rdispatch.System.Balance.{IsBalanced}
use rdispatch.System.StepLaws.{
  launch-IsBalanced, answers-IsBalanced, forwards-IsBalanced, keeps-IsBalanced,
  keeps_and_stores-IsBalanced, delivers-IsBalanced, repeats-IsBalanced, expires-IsBalanced,
  restarts_gateway-IsBalanced, restarts_within-IsBalanced,
}

module _ (fl : Float64) (B : Type 0) (chi : Chi) (codec : Codec) (jetstream : Stream B)
    (channels : List Channel) where
  abbrev Balanced : System fl B → Type 0
  Balanced = IsBalanced fl B chi codec jetstream channels

  module _ (routing : IsRouting chi) (lasting : IsWorkQueue jetstream) where
    pub Step-IsBalanced :
        (s t : System fl B) → Step fl B chi codec jetstream s t → Balanced s → Balanced t
    Step-IsBalanced s _ (answers c e) i =
        answers-IsBalanced fl B chi codec jetstream channels routing lasting s c _ _ e i
    Step-IsBalanced s _ (forwards m x n e) i =
        forwards-IsBalanced fl B chi codec jetstream channels routing lasting s m x _ n
          (Yields-at (drain_round-RoundEnds m s.server.queue i.valid) e) i
    Step-IsBalanced s _ (keeps m x n e) i =
        keeps-IsBalanced fl B chi codec jetstream channels routing lasting s m x _ n
          (Yields-at (drain_round-RoundEnds m s.server.queue i.valid) e) i
    Step-IsBalanced s _ (keeps_and_stores m x n e) i =
        keeps_and_stores-IsBalanced fl B chi codec jetstream channels routing lasting s m x _ n
          (Yields-at (drain_round-RoundEnds m s.server.queue i.valid) e) i
    Step-IsBalanced s _ (delivers around p rest split e) i =
        delivers-IsBalanced fl B chi codec jetstream channels routing lasting s around p rest _ _
          split e i
    Step-IsBalanced s _ (repeats around p rest split e) i =
        repeats-IsBalanced fl B chi codec jetstream channels routing lasting s around p _ _ e i
    Step-IsBalanced s _ (expires p rest split) i =
        expires-IsBalanced fl B chi codec jetstream channels routing lasting s p rest split i
    Step-IsBalanced s _ restarts_gateway i =
        restarts_gateway-IsBalanced fl B chi codec jetstream channels routing lasting s i
    Step-IsBalanced s _ (restarts_within x rest split) i =
        restarts_within-IsBalanced fl B chi codec jetstream channels routing lasting s x rest split
          i
    Step-IsBalanced s _ (restarts_worker e) i = record {
      valid = i.valid;
      bounded = Yields-at (new_memory-IsValid 10000 (omega arith)) e;
      same_channels = i.same_channels;
      balance = i.balance;
      treated = i.treated;
    }

    Steps-IsBalanced :
        (s t : System fl B) → Steps fl B chi codec jetstream s t → Balanced s → Balanced t
    Steps-IsBalanced s _ stays i = i
    Steps-IsBalanced s u (◌then◌ {t = t} before last) i =
        Step-IsBalanced t u last (Steps-IsBalanced s t before i)

    -- From a start with nothing in the stream, and with a router and a stream that keep their
    -- promises, no payload gets lost or doubled unseen through any steps: those of the accepted calls,
    -- and the copies of failed publications, are together those that are queued, in the stream,
    -- acknowledged, expired, or were queued, or in the hand of `drainQueue`, when a gateway stopped. With
    -- each payload that is acknowledged the worker has gone through all of its channels, unless `Unmarshal`
    -- refuses it, and then it has tried none.
    pub launched-IsBalanced :
        (b : B) (dlq : Memory) (t : System fl B)
        → jetstream.pending b ≡ []
        → new_memory (pos 10000) ≡ done dlq
        → Steps fl B chi codec jetstream (launched fl B channels b dlq) t
        → Balanced t
    launched-IsBalanced b dlq t none_pending e steps =
        Steps-IsBalanced (launched fl B channels b dlq) t steps
          (launch-IsBalanced fl B chi codec jetstream channels routing lasting b dlq none_pending e)
