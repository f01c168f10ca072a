-- ===== src/Gateway/DrainerLaws.antt =====
-- One round of `drainQueue`: how it ends, and what it leaves in the queue.
use mathlib.Core.List.{perm_middle}
use mathlib.Core.List.Perm
use rdispatch.Common.{
  String, ◌≡◌, refl, sym, Bool, true, false, Option, none, some, List, [], ◌∷◌, ◌++◌, Perm, Yields,
  yields, Yields-then, Yields-weaken, Yields-branch, arith, length, ◌==◌, if◌then◌else◌, Mem,
}
use rdispatch.Priority.Item.{Item}
use rdispatch.Priority.Queue.{Queue}
use rdispatch.Priority.Push.{IsValid, push-Holds}
use rdispatch.Priority.Pop.{Popped, pop-Popped}
use rdispatch.Priority.History.{Outranks, Outranks-of_Above}
use rdispatch.Gateway.Drainer.{
  Moment, Turn, stops, waits, publishes, fails, arrive, forward, drain_round,
}

-- `r` is a valid queue of the items `a`.
abbrev pub Holds : List Item → Queue → Type 0
Holds a r = IsValid r × Perm r.items a

arrive-Holds :
    (xs : List Item) (q : Queue) → IsValid q → Yields (Holds (xs ++ q.items)) (arrive xs q)
unfolding arrive
arrive-Holds [] q v = yields (v, Perm.rfl)
arrive-Holds (x ∷ xs) q v = Yields-then (push-Holds q x v) λ r (w, same).
    Yields-weaken (arrive-Holds xs r w) λ s (u, held).
      (u, Perm.trans held (Perm.trans (Perm.append_left xs same) (perm_middle xs q.items)))

-- What a round does with the items `a` that it finds.
pub data RoundEnds (m : Moment) (a : List Item) : Turn → Queue → Type 0 where
  stopped :
      {r : Queue} → m.is_done ≡ true → a ≡ [] → IsValid r → r.items ≡ [] → RoundEnds m a stops r
  waiting :
      {r : Queue} → m.is_done ≡ false → a ≡ [] → IsValid r → r.items ≡ [] → RoundEnds m a waits r
  published :
      {r : Queue} (x : Item)
      → m.publish_err ≡ none
      → IsValid r
      → Perm (x ∷ r.items) a
      → ((t : Item) → Mem t a → Outranks x t)
      → RoundEnds m a (publishes x) r
  failed :
      {r : Queue} {e : String} (x : Item)
      → m.publish_err ≡ some e
      → IsValid r
      → Perm r.items a
      → RoundEnds m a (fails x) r

nil_of_length : (a : List Item) → length a ≡ 0 → a ≡ []
nil_of_length [] h = refl
nil_of_length (x ∷ a) h = absurd (omega arith)

forward_ends :
    (m : Moment) (a : List Item) (err : Option String) (x : Item) (r rest : Queue)
    → m.publish_err ≡ err
    → Perm r.items a
    → Popped r.items x rest
    → Yields (λ (turn, s). RoundEnds m a turn s) (forward err x rest)
unfolding forward
forward_ends m a none x r rest e same p = yields (
    published x e p.valid (Perm.trans p.same same)
      λ t h. Outranks-of_Above x t (p.highest t ((Perm.mem_iff same).1 h)))
forward_ends m a (some err) x r rest e same p =
    Yields-then (push-Holds rest x p.valid)
      λ s (w, again). yields (failed x e w (Perm.trans again (Perm.trans p.same same)))

empty_ends :
    (m : Moment) (a : List Item) (r : Queue) (b : Bool)
    → m.is_done ≡ b
    → Perm r.items a
    → IsValid r
    → r.items ≡ []
    → RoundEnds m a (if b then stops else waits) r
empty_ends m a r true e same v none_left =
    stopped e (sym (Perm.nil-eq (rw none_left at same))) v none_left
empty_ends m a r false e same v none_left =
    waiting e (sym (Perm.nil-eq (rw none_left at same))) v none_left

-- A round ends without a panic. On no items it stops if `done` is closed, and waits otherwise. On some
-- it publishes one that outranks all the others, and keeps those; or, if the publishing fails, it keeps
-- them all, whether `done` is closed or not.
pub drain_round-RoundEnds :
    (m : Moment) (q : Queue)
    → IsValid q
    → Yields (λ (turn, r). RoundEnds m (m.arrivals ++ q.items) turn r) (drain_round m q)
unfolding drain_round
drain_round-RoundEnds m q v = Yields-then (arrive-Holds m.arrivals q v) λ r (w, same).
    Yields-branch (length r.items == 0)
      (λ e. yields (
        empty_ends m (m.arrivals ++ q.items) r m.is_done refl same w
          (nil_of_length r.items (ground arith))))
      (λ e.
        Yields-then (pop-Popped r w (ground arith))
          λ (x, rest) p. forward_ends m (m.arrivals ++ q.items) m.publish_err x r rest refl same p)
