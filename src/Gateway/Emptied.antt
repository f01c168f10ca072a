-- ===== src/Gateway/Emptied.antt =====
-- The end of `drainQueue` after the context has ended.
use mathlib.Core.List.{Pairwise, mem-cons_of_mem}
use mathlib.Core.List.Perm
use rdispatch.Common.{
  ℕ, suc, ◌≤◌, ◌≡◌, refl, sym, ap, ◌∙◌, subst, true, false, none, List, [], ◌∷◌, ◌++◌, Perm, done,
  ◌>>=◌, Yields, yields, Yields-then, arith, length, length-perm, All,
}
use rdispatch.Priority.Item.{Item}
use rdispatch.Priority.Queue.{Queue}
use rdispatch.Priority.Push.{IsValid}
use rdispatch.Priority.History.{Outranks}
use rdispatch.Gateway.Drainer.{
  Moment, Turn, stops, waits, publishes, fails, Drained, add_published, arrive, drain_round,
  drain_queue,
}
use rdispatch.Gateway.DrainerLaws.{
  RoundEnds, stopped, waiting, published, failed, drain_round-RoundEnds,
}

-- The context goes on, nothing arrives, and publishing succeeds.
abbrev pub IsWorking : Moment → Type 0
IsWorking m = (m.arrivals ≡ []) × (m.is_done ≡ false) × (m.publish_err ≡ none)

-- The context has ended, and nothing arrives.
abbrev pub IsClosing : Moment → Type 0
IsClosing m = (m.arrivals ≡ []) × (m.is_done ≡ true)

-- The loop has returned with the queue empty, and has published the items `a` in an order of delivery.
abbrev pub Emptied : List Item → Drained → Type 0
Emptied a d =
    (d.returned ≡ true) × (d.queue.items ≡ []) × Pairwise Outranks d.published × Perm d.published a

after_working :
    (m : Moment) (ms : List Moment) (n : ℕ) (a : List Item) (t : Turn) (r : Queue)
    → IsWorking m
    → length a ≤ suc n
    → RoundEnds m a t r
    → (IsValid r → length r.items ≤ n → Yields (Emptied r.items) (drain_queue ms r))
    → Yields (Emptied a) (
        let later = drain_queue ms r in
        elim t [
          | stops ↦ done (record { returned = true; published = []; queue = r })
          | waits ↦ later
          | publishes x ↦ (later >>= λ d. done (add_published (x ∷ []) d))
          | fails x ↦ later
        ])
after_working m ms n a stops r c f (stopped b e v q) ih = absurd (let goes_on = c.1 in cc)
after_working m ms n a waits r c f (waiting b e v q) ih =
    subst (λ b. Yields (Emptied b) (drain_queue ms r)) (q ∙ sym e)
      (ih v (omega (arith, ap length q)))
after_working m ms n a (fails x) r c f (failed _ b v same) ih = absurd (let works = c.2 in cc)
after_working m ms n a (publishes x) r c f (published _ b v same top) ih =
    Yields-then (ih v (omega (arith, f, length-perm same))) λ d (returned, empty, sorted, perm).
      let all = Perm.trans (Perm.cons x perm) same in
      yields (
        returned,
        empty,
        Pairwise.cons (λ u h. top u ((Perm.mem_iff all).0 (mem-cons_of_mem x h))) sorted,
        all,
      )

nil_of_length : (a : List Item) → length a ≤ 0 → a ≡ []
nil_of_length [] h = refl
nil_of_length (x ∷ a) h = absurd (omega arith)

closing_round :
    (m : Moment) (q : Queue) → IsClosing m → q.items ≡ [] → drain_round m q ≡ done (stops, q)
unfolding drain_round arrive
closing_round m q (a, d) e = rw (a, e, d) refl

-- If nothing arrives and publishing succeeds for at least as many rounds as items are queued, and the
-- context ends after those rounds, `drainQueue` returns; it leaves the queue empty and has published every
-- item once, each before those that it outranks.
pub drain_queue-Emptied :
    (ms : List Moment) (m : Moment) (q : Queue)
    → All IsWorking ms
    → IsClosing m
    → length q.items ≤ length ms
    → IsValid q
    → Yields
        (λ d.
          (d.returned ≡ true)
          × (d.queue.items ≡ [])
          × Pairwise Outranks d.published
          × Perm d.published q.items)
        (drain_queue (ms ++ m ∷ []) q)
unfolding drain_queue
drain_queue-Emptied [] m q cs c f v =
    let empty = nil_of_length q.items f in
    rw (closing_round m q c empty) (yields (refl, empty, Pairwise.nil, rw empty Perm.nil))
drain_queue-Emptied (w ∷ ms) m q (c, cs) k f v =
    Yields-then (drain_round-RoundEnds w q v) λ (t, r) s.
      after_working w (ms ++ m ∷ []) (length ms) q.items t r c f
        (subst (λ b. RoundEnds w (b ++ q.items) t r) c.0 s)
        λ u g. drain_queue-Emptied ms m r cs k g u
