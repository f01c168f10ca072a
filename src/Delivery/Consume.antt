-- ===== src/Delivery/Consume.antt =====
-- The loop of `Run`: which messages it handles, and when it returns.
use mathlib.Core.List.{append-nil}
use rdispatch.Common.{
  ℕ, suc, ◌+◌, ◌≡◌, refl, ap, ◌∙◌, none, some, Option-cases, inl, inr, List, [], ◌∷◌, ◌++◌, Yields,
  yields, Yields-then, arith, length, length-append,
}
use rdispatch.Common.Float.{Float64}
use rdispatch.Common.Json.{Codec}
use rdispatch.Dlq.Window.{IsValid}
use rdispatch.Delivery.Worker.{
  Surroundings, Worker, Handled, handle_all, Round, Progress, returned, running, batch, run_loop,
}
use rdispatch.Delivery.Letters.{handle_message-Handles}

module _ (fl : Float64) (codec : Codec) where
  -- The messages that arrive before the context ends, and in the round in which it ends.
  abbrev pub arrivals : List (Round fl) → List (Surroundings fl.F × List ℕ)
  arrivals [] = []
  arrivals (r ∷ rs) = batch fl r.fetched ++ elim r.context_err [ some e ↦ [] | none ↦ arrivals rs ]

  -- The error of the context in the first round in which there is one.
  abbrev pub progress : List (Round fl) → Progress fl
  progress [] = running
  progress (r ∷ rs) = elim r.context_err [ some e ↦ returned e | none ↦ progress rs ]

  abbrev pub total_acks : List (Handled fl) → ℕ
  total_acks [] = 0
  total_acks (h ∷ hs) = h.acks + total_acks hs

  -- One answer and one acknowledgement for each message; the worker stays sound.
  pub record Consumed (n : ℕ) (w : Worker fl) (msgs : List (Surroundings fl.F × List ℕ))
      (hs : List (Handled fl)) (after : Worker fl) : Type 0 where
    pub each : length hs ≡ length msgs
    pub acked : total_acks hs ≡ length msgs
    pub channels : after.channels ≡ w.channels
    pub valid : IsValid n after.dlq

  handle_all-Consumed :
      (n : ℕ) (msgs : List (Surroundings fl.F × List ℕ)) (w : Worker fl)
      → IsValid n w.dlq
      → Yields (λ (hs, after). Consumed n w msgs hs after) (handle_all fl codec msgs w)
  unfolding handle_all
  handle_all-Consumed n [] w v =
      yields (record { each = refl; acked = refl; channels = refl; valid = v })
  handle_all-Consumed n ((s, payload) ∷ more) w v =
      Yields-then (handle_message-Handles fl s payload codec w n v) λ (h, after) (k, _).
        Yields-then (handle_all-Consumed n more after k.valid) λ (hs, last) c. yields (record {
          each = ap suc c.each;
          acked = omega (arith, k.acked, c.acked);
          channels = c.channels ∙ k.channels;
          valid = c.valid;
        })

  total_acks-append :
      (hs gs : List (Handled fl)) → total_acks (hs ++ gs) ≡ total_acks hs + total_acks gs
  total_acks-append [] gs = omega arith
  total_acks-append (h ∷ hs) gs = omega (arith, total_acks-append hs gs)

  Consumed-append :
      (n : ℕ) {w u t : Worker fl} (xs ys : List (Surroundings fl.F × List ℕ))
      (hs gs : List (Handled fl))
      → Consumed n w xs hs u
      → Consumed n u ys gs t
      → Consumed n w (xs ++ ys) (hs ++ gs) t
  Consumed-append n xs ys hs gs c d = record {
    each = omega (arith, length-append xs ys, length-append hs gs, c.each, d.each);
    acked = omega (arith, length-append xs ys, total_acks-append hs gs, c.acked, d.acked);
    channels = d.channels ∙ c.channels;
    valid = d.valid;
  }

  pub run_loop-Consumed :
      (n : ℕ) (rs : List (Round fl)) (w : Worker fl)
      → IsValid n w.dlq
      → Yields
          (λ (p, hs, after). (p ≡ progress rs) × Consumed n w (arrivals rs) hs after)
          (run_loop fl codec rs w)
  unfolding run_loop
  run_loop-Consumed n [] w v =
      yields (refl, record { each = refl; acked = refl; channels = refl; valid = v })
  run_loop-Consumed n (r ∷ rs) w v =
      Yields-then (handle_all-Consumed n (batch fl r.fetched) w v) λ (hs, after) c.
        elim (Option-cases r.context_err) [
          | inl on ↦
              rw (on, run_loop)
                (Yields-then (run_loop-Consumed n rs after c.valid) λ (p, more, last) (e, d).
                  yields (e, Consumed-append n (batch fl r.fetched) (arrivals rs) hs more c d))
          | inr (x, off) ↦ rw (off, run_loop) (yields (refl, rw append-nil c))
        ]
