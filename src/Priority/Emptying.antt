-- ===== src/Priority/Emptying.antt =====
-- A client that empties the queue with `TryPop`.
use mathlib.Core.List.{Pairwise, mem-cons_of_mem}
use mathlib.Core.List.Perm
use rdispatch.Common.{
  ℕ, zero, suc, ◌<◌, Bool, true, false, List, [], ◌∷◌, Perm, Run, done, out_of_fuel, ◌>>=◌, Yields,
  yields, Yields-then, arith, length, length-perm,
}
use rdispatch.Priority.Item.{Item}
use rdispatch.Priority.Queue.{Queue, try_pop}
use rdispatch.Priority.Push.{IsValid}
use rdispatch.Priority.Pop.{TryPopped, nothing, popped, try_pop-TryPopped}
use rdispatch.Priority.History.{Outranks, Outranks-of_Above}

-- `TryPop` until it reports `false`, as a client empties a queue; on fuel.
unfoldable pub pop_all : ℕ → Queue → Run (List Item)
pop_all zero q = out_of_fuel
pop_all (suc fuel) q = try_pop q >>= λ (item, ok, r).
    let more = pop_all fuel r >>= λ items. done (item ∷ items) in
    elim ok [ true ↦ more | false ↦ done [] ]

-- `out` is `a` in an order of delivery.
abbrev pub InOrder : List Item → List Item → Type 0
InOrder a out = Pairwise Outranks out × Perm out a

pop_all_after :
    (fuel : ℕ) (q : Queue)
    → ((r : Queue) → length r.items < fuel → IsValid r → Yields (InOrder r.items) (pop_all fuel r))
    → length q.items < suc fuel
    → (t : Item × Bool × Queue) → TryPopped q t
    → Yields (InOrder q.items) (
        let more = pop_all fuel t.2 >>= λ items. done (t.0 ∷ items) in
        elim t.1 [ true ↦ more | false ↦ done [] ])
pop_all_after fuel q ih f t (nothing e) = yields (Pairwise.nil, rw e Perm.nil)
pop_all_after fuel q ih f t (popped {item = x} {r = r} p) =
    Yields-then (ih r (omega (arith, length-perm p.same)) p.valid) λ out (sorted, perm).
      let same = Perm.trans (Perm.cons x perm) p.same in
      yields (
        Pairwise.cons
            (λ u m.
              Outranks-of_Above x u (p.highest u ((Perm.mem_iff same).0 (mem-cons_of_mem x m))))
            sorted,
        same,
      )

-- With one round more than items, emptying a valid queue gives all its items once, each before those
-- of a lower level, and within a level from the oldest to the newest.
pub pop_all-InOrder :
    (fuel : ℕ) (q : Queue)
    → length q.items < fuel
    → IsValid q
    → Yields (λ out. Pairwise Outranks out × Perm out q.items) (pop_all fuel q)
unfolding pop_all
pop_all-InOrder zero q f v = absurd (omega arith)
pop_all-InOrder (suc fuel) q f v =
    Yields-then (try_pop-TryPopped q v)
      λ t p. pop_all_after fuel q (λ r. pop_all-InOrder fuel r) f t p
