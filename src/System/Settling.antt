-- ===== src/System/Settling.antt =====
-- How the composed system comes to rest.
use mathlib.Core.List.Perm
use rdispatch.Common.{
  ℕ, zero, suc, ap, ◌≡◌, refl, subst, ◌∙◌, List, [], ◌∷◌, ◌++◌, Perm, done, map, Yields-value,
  arith, length, length-perm, false, none, List-cases, inl, inr,
}
use rdispatch.Common.Float.{Float64}
use rdispatch.Common.Json.{Codec}
use rdispatch.Priority.Item.{Item}
use rdispatch.Priority.Queue.{Queue}
use rdispatch.Delivery.Notification.{Channel}
use rdispatch.Delivery.Worker.{Surroundings}
use rdispatch.Delivery.Letters.{handle_message-Handles}
use rdispatch.Gateway.Router.{Chi}
use rdispatch.Gateway.RouterLaws.{IsRouting}
use rdispatch.Gateway.Drainer.{Moment, Turn, stops, waits, publishes, fails, drain_round}
use rdispatch.Gateway.DrainerLaws.{
  RoundEnds, published, failed, stopped, waiting, drain_round-RoundEnds,
}
use rdispatch.System.Stream.{Stream, IsWorkQueue}
use rdispatch.System.Steps.{System, Step, forwards, delivers, Steps, stays, ◌then◌}
use rdispatch.System.Balance.{taken, kept, IsBalanced}
use rdispatch.System.Conserved.{Step-IsBalanced}

-- A round in which nothing arrives and `Publish` succeeds.
abbrev pub quiet : Moment
quiet = record { arrivals = []; is_done = false; publish_err = none }

module _ (fl : Float64) (B : Type 0) (chi : Chi) (codec : Codec) (jetstream : Stream B)
    (channels : List Channel) (routing : IsRouting chi) (lasting : IsWorkQueue jetstream)
    (around : Surroundings fl.F) where
  abbrev Balanced : System fl B → Type 0
  Balanced = IsBalanced fl B chi codec jetstream channels

  -- Steps that take on nothing and give up nothing.
  record Onward (s t : System fl B) : Type 0 where
    steps : Steps fl B chi codec jetstream s t
    balanced : Balanced t
    same_taken :
        taken fl B chi codec jetstream channels t ≡ taken fl B chi codec jetstream channels s
    same_expired : t.expired ≡ s.expired
    same_stranded : t.stranded ≡ s.stranded

  abbrev after_forward : System fl B → Item → Queue → System fl B
  after_forward t x r = record t {
    server = record { queue = r };
    stream = jetstream.store x.payload t.stream;
  }

  Onward-by :
      (s t u : System fl B)
      → Onward s t
      → Step fl B chi codec jetstream t u
      → taken fl B chi codec jetstream channels u ≡ taken fl B chi codec jetstream channels t
      → u.expired ≡ t.expired
      → u.stranded ≡ t.stranded
      → Onward s u
  Onward-by s t u o step et ee es = record {
    steps = o.steps then step;
    balanced =
        Step-IsBalanced fl B chi codec jetstream channels routing lasting t u step o.balanced;
    same_taken = et ∙ o.same_taken;
    same_expired = ee ∙ o.same_expired;
    same_stranded = es ∙ o.same_stranded;
  }

  forward_round :
      (s t : System fl B) (n : ℕ) (turn : Turn) (r : Queue)
      → Onward s t
      → length t.server.queue.items ≡ suc n
      → drain_round quiet t.server.queue ≡ done (turn, r)
      → RoundEnds quiet t.server.queue.items turn r
      → (u : System fl B) × Onward s u × (length u.server.queue.items ≡ n)
  forward_round s t n stops r o size e (stopped d none_left v q) =
      absurd (omega (arith, ap length none_left, size))
  forward_round s t n waits r o size e (waiting d none_left v q) =
      absurd (omega (arith, ap length none_left, size))
  forward_round s t n (fails x) r o size e (failed _ f v same) = absurd cc
  forward_round s t n (publishes x) r o size e (published _ f v same top) = (
    after_forward t x r,
    Onward-by s t (after_forward t x r) o (forwards quiet x refl e) refl refl refl,
    omega (arith, length-perm same, size),
  )

  forward_all :
      (s : System fl B) (n : ℕ) (t : System fl B)
      → Onward s t
      → length t.server.queue.items ≡ n
      → (u : System fl B) × Onward s u × (length u.server.queue.items ≡ 0)
  forward_all s zero t o size = (t, o, size)
  forward_all s (suc n) t o size =
      let ((turn, r), e, ends) =
        Yields-value (drain_round-RoundEnds quiet t.server.queue o.balanced.valid) in
      let (u, o', size') = forward_round s t n turn r o size e ends in forward_all s n u o' size'

  deliver_all_pending :
      (s : System fl B) (n : ℕ) (t : System fl B)
      → Onward s t
      → length t.server.queue.items ≡ 0
      → length (jetstream.pending t.stream) ≡ n
      → (u : System fl B) × Onward s u
        × (length u.server.queue.items ≡ 0)
        × (length (jetstream.pending u.stream) ≡ 0)
  deliver_all_pending s zero t o q size = (t, o, q, size)
  deliver_all_pending s (suc n) t o q size = elim (List-cases (jetstream.pending t.stream)) [
    | inl e ↦ absurd (omega (arith, ap length e, size))
    | inr (p, rest, e) ↦
        let split : Perm (jetstream.pending t.stream) (p ∷ rest) = rw e Perm.rfl in
        let ((h, w), handled, k) =
          Yields-value
            (handle_message-Handles fl around p codec t.worker 10000 o.balanced.bounded) in
        let u : System fl B = record t {
          stream = jetstream.remove p t.stream;
          worker = w;
          acked = (p, h) ∷ t.acked;
        } in
        let left = length-perm (lasting.removed p rest t.stream split) in
        deliver_all_pending s n u
          (Onward-by s t u o (delivers around p rest split handled) refl refl refl) q
          (omega (arith, left, ap length e, size))
  ]

  nil_of_length : {A : Type 0} (xs : List A) → length xs ≡ 0 → xs ≡ []
  nil_of_length [] e = refl
  nil_of_length (x ∷ xs) e = absurd (omega arith)

  -- The steps end in a system with nothing on the way: all that was taken on has been acknowledged by the
  -- worker, apart from what had expired or was stranded before.
  pub record Settled (s t : System fl B) : Type 0 where
    pub steps : Steps fl B chi codec jetstream s t
    pub queue_empty : t.server.queue.items ≡ []
    pub stream_empty : jetstream.pending t.stream ≡ []
    pub arrived :
        Perm
          (taken fl B chi codec jetstream channels s)
          (map (λ a. a.0) t.acked ++ (s.expired ++ s.stranded))
    pub balanced : Balanced t

  Settled-of_Onward :
      (s u : System fl B)
      → Onward s u
      → u.server.queue.items ≡ []
      → jetstream.pending u.stream ≡ []
      → Settled s u
  Settled-of_Onward s u o q p = record {
    steps = o.steps;
    queue_empty = q;
    stream_empty = p;
    arrived =
        let sum =
          subst
            (λ x. Perm x (
              kept fl B chi codec jetstream channels u.server.queue.items u.stream u.acked u.expired
                u.stranded))
            o.same_taken o.balanced.balance in
        rw (q, p, o.same_expired, o.same_stranded) at sum;
    balanced = o.balanced;
  }

  -- The system is never stuck: from any balanced state, without a further call, as long as `Publish`
  -- succeeds and nothing expires or stops, its steps empty the queue and the stream, so that the worker
  -- has acknowledged every payload that was taken on.
  pub settles : (s : System fl B) → Balanced s → (t : System fl B) × Settled s t
  settles s i =
      let start : Onward s s = record {
        steps = stays;
        balanced = i;
        same_taken = refl;
        same_expired = refl;
        same_stranded = refl;
      } in
      let (t, o, q) = forward_all s (length s.server.queue.items) s start refl in
      let (u, o', q', p) = deliver_all_pending s (length (jetstream.pending t.stream)) t o q refl in
      (u, Settled-of_Onward s u o' (nil_of_length _ q') (nil_of_length _ p))
