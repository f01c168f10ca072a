-- ===== src/Gateway/Drainer.antt =====
-- cmd/gateway-api/main.go: `drainQueue`, which publishes the items of the queue to NATS, a round at a time.
-- What clients push while `Pop` waits or `Publish` runs counts to the next round; `Loop` has these steps
-- one by one.
use rdispatch.Common.{
  String, Bool, true, false, Option, none, some, List, [], ◌∷◌, ◌++◌, Run, done, ◌>>=◌, length,
  ◌==◌, if◌then◌else◌,
}
use rdispatch.Priority.Item.{Item}
use rdispatch.Priority.Queue.{Queue, push, pop}

-- What surrounds one round of the loop: the items that clients push before the `Pop` of the round looks
-- at the queue, whether `done` is closed by then, and the error of `js.Publish`, if it is called.
pub record Moment : Type 0 where
  pub arrivals : List Item
  pub is_done : Bool
  pub publish_err : Option String

-- How a round goes: `Pop` reports that the context is cancelled, or it has to wait; or an item is
-- published, or is pushed again after a failure.
pub data Turn : Type 0 where
  stops waits : Turn
  publishes fails : Item → Turn

unfoldable pub arrive : List Item → Queue → Run Queue
arrive [] q = done q
arrive (x ∷ xs) q = push q x >>= arrive xs

-- The body of the loop, after a `Pop` that has returned an item.
unfoldable pub forward : Option String → Item → Queue → Run (Turn × Queue)
forward none item q = done (publishes item, q)
forward (some e) item q = push q item >>= λ r. done (fails item, r)

-- One round. On an empty queue `Pop` returns only if `done` is closed.
unfoldable pub drain_round : Moment → Queue → Run (Turn × Queue)
drain_round m q = arrive m.arrivals q >>= λ r.
    if length r.items == 0
    then done (if m.is_done then stops else waits, r)
    else (pop r >>= λ (item, rest). forward m.publish_err item rest)

-- Whether the loop has returned, what it has published, in order, and the queue that is left.
pub record Drained : Type 0 where
  pub returned : Bool
  pub published : List Item
  pub queue : Queue

abbrev pub add_published : List Item → Drained → Drained
add_published xs d = record d { published = xs ++ d.published }

-- The loop of `drainQueue` over the rounds that the world plays.
unfoldable pub drain_queue : List Moment → Queue → Run Drained
drain_queue [] q = done (record { returned = false; published = []; queue = q })
drain_queue (m ∷ ms) q = drain_round m q >>= λ (turn, r).
    let later = drain_queue ms r in
    elim turn [
      | stops ↦ done (record { returned = true; published = []; queue = r })
      | waits ↦ later
      | publishes x ↦ (later >>= λ d. done (add_published (x ∷ []) d))
      | fails x ↦ later
    ]
