-- ===== src/Gateway/Account.antt =====
-- The loop of `drainQueue` over any number of rounds.
use mathlib.Core.List.{append-nil, perm_middle}
use mathlib.Core.List.Perm
use rdispatch.Common.{
  ℕ, suc, ◌<◌, String, ◌≡◌, refl, ap, true, false, some, List, [], ◌∷◌, ◌++◌, Perm, done, ◌>>=◌,
  Yields, yields, Yields-then, Yields-weaken, reorder, arith, length, length-perm, length-append,
  take, All,
}
use rdispatch.Priority.Item.{Item}
use rdispatch.Priority.Queue.{Queue}
use rdispatch.Priority.Push.{IsValid}
use rdispatch.Gateway.Drainer.{
  Moment, Turn, stops, waits, publishes, fails, Drained, add_published, drain_queue,
}
use rdispatch.Gateway.DrainerLaws.{
  RoundEnds, stopped, waiting, published, failed, drain_round-RoundEnds,
}

-- All that arrives in some rounds.
abbrev pub arrived : List Moment → List Item
arrived [] = []
arrived (m ∷ ms) = m.arrivals ++ arrived ms

-- The loop has gone through the first `seen` rounds: what it has published and what is left are what
-- was there and what arrived in them. If it has returned, nothing is left; if not, it has gone through
-- all rounds.
pub record Accounted (ms : List Moment) (a : List Item) (d : Drained) : Type 0 where
  pub seen : ℕ
  pub valid : IsValid d.queue
  pub balance : Perm (d.published ++ d.queue.items) (arrived (take seen ms) ++ a)
  pub emptied : d.returned ≡ true → d.queue.items ≡ []
  pub whole : d.returned ≡ false → seen ≡ length ms

-- The arrivals of one more round in front.
Accounted-kept :
    (m : Moment) (ms : List Moment) (a b : List Item) (d : Drained)
    → Perm b (m.arrivals ++ a)
    → Accounted ms b d
    → Accounted (m ∷ ms) a d
Accounted-kept m ms a b d same c = record {
  seen = suc c.seen;
  valid = c.valid;
  balance = Perm.trans c.balance (
      Perm.trans (Perm.append_left (arrived (take c.seen ms)) same)
        (reorder (arrived (take c.seen ms)) m.arrivals a));
  emptied = c.emptied;
  whole = λ e. ap suc (c.whole e);
}

Accounted-published :
    (m : Moment) (ms : List Moment) (a b : List Item) (x : Item) (d : Drained)
    → Perm (x ∷ b) (m.arrivals ++ a)
    → Accounted ms b d
    → Accounted (m ∷ ms) a (add_published (x ∷ []) d)
Accounted-published m ms a b x d same c = record {
  seen = suc c.seen;
  valid = c.valid;
  balance = Perm.trans (Perm.cons x c.balance) (
      Perm.trans (Perm.symm (perm_middle (arrived (take c.seen ms)) b)) (
        Perm.trans (Perm.append_left (arrived (take c.seen ms)) same)
          (reorder (arrived (take c.seen ms)) m.arrivals a)));
  emptied = c.emptied;
  whole = λ e. ap suc (c.whole e);
}

Accounted-stopped :
    (m : Moment) (ms : List Moment) (a : List Item) (r : Queue)
    → m.arrivals ++ a ≡ []
    → IsValid r
    → r.items ≡ []
    → Accounted (m ∷ ms) a (record { returned = true; published = []; queue = r })
Accounted-stopped m ms a r nothing v none_left = record {
  seen = 1;
  valid = v;
  balance = rw (append-nil m.arrivals, nothing, none_left) Perm.nil;
  emptied = λ e. none_left;
  whole = λ e. cc;
}

-- The rest of the loop after a round.
after_round :
    (m : Moment) (ms : List Moment) (a : List Item) (t : Turn) (r : Queue)
    → RoundEnds m (m.arrivals ++ a) t r
    → (IsValid r → Yields (Accounted ms r.items) (drain_queue ms r))
    → Yields (Accounted (m ∷ ms) a) (
        let later = drain_queue ms r in
        elim t [
          | stops ↦ done (record { returned = true; published = []; queue = r })
          | waits ↦ later
          | publishes x ↦ (later >>= λ d. done (add_published (x ∷ []) d))
          | fails x ↦ later
        ])
after_round m ms a stops r (stopped b nothing v none_left) ih =
    yields (Accounted-stopped m ms a r nothing v none_left)
after_round m ms a waits r (waiting b nothing v none_left) ih =
    Yields-weaken (ih v) λ d c. Accounted-kept m ms a r.items d (rw (nothing, none_left) Perm.nil) c
after_round m ms a (publishes x) r (published _ e v same top) ih =
    Yields-then (ih v) λ d c. yields (Accounted-published m ms a r.items x d same c)
after_round m ms a (fails x) r (failed _ e v same) ih =
    Yields-weaken (ih v) λ d c. Accounted-kept m ms a r.items d same c

-- Over any rounds `drainQueue` loses and duplicates nothing: what it has published and what is left are
-- what was there and what arrived in the rounds that it went through. It returns only when `Pop` has found
-- the queue empty.
pub drain_queue-Accounted :
    (ms : List Moment) (q : Queue) → IsValid q → Yields (Accounted ms q.items) (drain_queue ms q)
unfolding drain_queue
drain_queue-Accounted [] q v =
    yields
      (record { seen = 0; valid = v; balance = Perm.rfl; emptied = λ e. cc; whole = λ e. refl })
drain_queue-Accounted (m ∷ ms) q v =
    Yields-then (drain_round-RoundEnds m q v)
      λ (t, r) s. after_round m ms q.items t r s (drain_queue-Accounted ms r)

-- The context has ended, and publishing fails.
abbrev pub IsHopeless : Moment → Type 0
IsHopeless m = (m.is_done ≡ true) × ((e : String) × (m.publish_err ≡ some e))

abbrev Spinning : List Moment → Queue → Drained → Type 0
Spinning ms q d =
    (d.returned ≡ false)
    × (d.published ≡ [])
    × (length d.queue.items ≡ length (arrived ms ++ q.items))

after_hopeless :
    (m : Moment) (ms : List Moment) (q : Queue) (t : Turn) (r : Queue)
    → IsHopeless m
    → 0 < length q.items
    → RoundEnds m (m.arrivals ++ q.items) t r
    → (IsValid r → 0 < length r.items → Yields (Spinning ms r) (drain_queue ms r))
    → Yields (Spinning (m ∷ ms) q) (
        let later = drain_queue ms r in
        elim t [
          | stops ↦ done (record { returned = true; published = []; queue = r })
          | waits ↦ later
          | publishes x ↦ (later >>= λ d. done (add_published (x ∷ []) d))
          | fails x ↦ later
        ])
after_hopeless m ms q stops r h some_left (stopped b nothing v none_left) ih =
    absurd (omega (arith, ap length nothing, length-append m.arrivals q.items))
after_hopeless m ms q waits r h some_left (waiting b nothing v none_left) ih =
    absurd (omega (arith, ap length nothing, length-append m.arrivals q.items))
after_hopeless m ms q (publishes x) r h some_left (published _ e v same top) ih =
    absurd (ground arith)
after_hopeless m ms q (fails x) r h some_left (failed _ e v same) ih =
    let size = length-perm same in
    let joined = length-append m.arrivals q.items in
    Yields-weaken (ih v (omega (arith, size, joined))) λ d (a, b, c). (
      a,
      b,
      omega (
        arith,
        c,
        size,
        joined,
        length-append (arrived ms) r.items,
        length-append (m.arrivals ++ arrived ms) q.items,
        length-append m.arrivals (arrived ms),
      ),
    )

-- Once the context has ended and publishing fails, `drainQueue` does not return as long as an item is
-- queued: for any number of rounds it pops an item and pushes it again.
pub drain_queue-spins :
    (ms : List Moment) (q : Queue)
    → All IsHopeless ms
    → IsValid q
    → 0 < length q.items
    → Yields
        (λ d.
          (d.returned ≡ false)
          × (d.published ≡ [])
          × (length d.queue.items ≡ length (arrived ms ++ q.items)))
        (drain_queue ms q)
unfolding drain_queue
drain_queue-spins [] q hs v some_left = yields (refl, refl, refl)
drain_queue-spins (m ∷ ms) q (h, hs) v some_left =
    Yields-then (drain_round-RoundEnds m q v)
      λ (t, r) s. after_hopeless m ms q t r h some_left s (drain_queue-spins ms r hs)
