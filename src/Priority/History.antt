-- ===== src/Priority/History.antt =====
-- Sequences of calls on one queue: what a client sees, against a bag of items that is served by rank.
use mathlib.Core.List.Perm
use rdispatch.Common.{
  ◌≤◌, ◌≡◌, ◌⊎◌, Bool, true, false, List, [], ◌∷◌, Mem, Perm, Run, done, ◌>>=◌, Yields, yields,
  Yields-then, Yields-weaken, arith,
}
use rdispatch.Common.Int.{◌<ℤ◌, eq_of_parts}
use rdispatch.Priority.Item.{Item, zero_item, lower, Above}
use rdispatch.Priority.Queue.{Queue, push, try_pop}
use rdispatch.Priority.Push.{IsValid, push-Holds}
use rdispatch.Priority.Pop.{TryPopped, nothing, popped, try_pop-TryPopped}

pub data Call : Type 0 where
  pushes : Item → Call
  pops : Call

-- The calls in turn, with the answers of the `TryPop`s.
unfoldable pub run : List Call → Queue → Run (List (Item × Bool) × Queue)
run [] q = done ([], q)
run (pushes x ∷ calls) q = push q x >>= run calls
run (pops ∷ calls) q = try_pop q >>= λ (item, ok, r).
    run calls r >>= λ (answers, last). done ((item, ok) ∷ answers, last)

-- `x` is to be delivered no later than `y`: a higher level, or the same level and no later in time.
abbrev pub Outranks : Item → Item → Type 0
Outranks x y =
    (y.priority <ℤ x.priority) ⊎ ((x.priority ≡ y.priority) × (x.created_at ≤ y.created_at))

pub Outranks-of_Above : (x y : Item) → Above x y → Outranks x y
unfolding lower
Outranks-of_Above x y h = ground (arith, eq_of_parts x.priority y.priority)

-- The abstract service: a bag, written as a list up to permutation. A `TryPop` answers with an item
-- that outranks all that wait, or with `false` if none waits.
pub data Serves : List Item → List Call → List (Item × Bool) → List Item → Type 0 where
  ends : {a b : List Item} → Perm a b → Serves a [] [] b
  arrives :
      {a b : List Item} {calls : List Call} {answers : List (Item × Bool)} (x : Item)
      → Serves (x ∷ a) calls answers b
      → Serves a (pushes x ∷ calls) answers b
  refuses :
      {a b : List Item} {calls : List Call} {answers : List (Item × Bool)}
      → a ≡ []
      → Serves a calls answers b
      → Serves a (pops ∷ calls) ((zero_item, false) ∷ answers) b
  serves :
      {a b rest : List Item} {calls : List Call} {answers : List (Item × Bool)} (x : Item)
      → Perm (x ∷ rest) a
      → ((t : Item) → Mem t a → Outranks x t)
      → Serves rest calls answers b
      → Serves a (pops ∷ calls) ((x, true) ∷ answers) b

-- The service does not depend on how the bag is written.
Serves-perm :
    {a a' b : List Item} {calls : List Call} {answers : List (Item × Bool)}
    → Perm a' a
    → Serves a calls answers b
    → Serves a' calls answers b
Serves-perm p (ends e) = ends (Perm.trans p e)
Serves-perm p (arrives x s) = arrives x (Serves-perm (Perm.cons x p) s)
Serves-perm p (refuses e s) = refuses (Perm.eq-nil (rw e at p)) (Serves-perm p s)
Serves-perm p (serves x same top s) =
    serves x (Perm.trans same (Perm.symm p)) (λ t m. top t ((Perm.mem_iff p).0 m)) s

abbrev Follows : List Item → List Call → List (Item × Bool) × Queue → Type 0
Follows a calls r = Serves a calls r.0 r.1.items × IsValid r.1

after_pop :
    (q : Queue) (calls : List Call)
    → ((r : Queue) → IsValid r → Yields (Follows r.items calls) (run calls r))
    → IsValid q
    → (t : Item × Bool × Queue) → TryPopped q t
    → Yields
        (Follows q.items (pops ∷ calls))
        (run calls t.2 >>= λ (answers, last). done ((t.0, t.1) ∷ answers, last))
after_pop q calls ih v t (nothing e) =
    Yields-then (ih q v) λ (answers, last) (s, w). yields (refuses e s, w)
after_pop q calls ih v t (popped {item = x} p) =
    Yields-then (ih _ p.valid) λ (answers, last) (s, w).
      yields (serves x p.same (λ u m. Outranks-of_Above x u (p.highest u m)) s, w)

-- The heap implements the service: any calls on a valid queue end without a panic, with answers that
-- the bag of its items can give, and leave a valid queue of the items that the bag is left with.
pub run-Serves :
    (calls : List Call) (q : Queue)
    → IsValid q
    → Yields (λ (answers, r). Serves q.items calls answers r.items × IsValid r) (run calls q)
unfolding run
run-Serves [] q v = yields (ends (Perm.refl q.items), v)
run-Serves (pushes x ∷ calls) q v = Yields-then (push-Holds q x v) λ r (w, same).
    Yields-weaken (run-Serves calls r w)
      λ (answers, last) (s, u). (arrives x (Serves-perm (Perm.symm same) s), u)
run-Serves (pops ∷ calls) q v =
    Yields-then (try_pop-TryPopped q v) λ t p. after_pop q calls (run-Serves calls) v t p
