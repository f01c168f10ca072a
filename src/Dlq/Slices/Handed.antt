-- ===== src/Dlq/Slices/Handed.antt =====
-- The slices that `Messages` and `Drain` hand out.
use native.Mathlib.Nat.{zero-add}
use rdispatch.Common.{
  ℕ, suc, ◌≤◌, ◌<◌, ◌≡◌, ◌≢◌, refl, ap, sym, ◌∙◌, subst, List, [], ◌∷◌, ◌++◌, Yields, yields,
  length, take, drop, set, length-set, length-append, take-length, arith, inl, inr, false, ltb,
}
use rdispatch.Common.Int.{pos}
use rdispatch.Dlq.Memory.{Message, Memory as ListMemory, drain as list_drain}
use rdispatch.Dlq.Window.{take-append}
use rdispatch.Dlq.Slices.{
  Store, Slice, array_at, contents, zeros, smaller, copy, make, allocate, Memory, messages, drain,
  new_memory,
}
use rdispatch.Dlq.Slices.Arrays.{
  array_at-set_same, array_at-set_other, array_at-append, array_at_last, length-take, length-zeros,
}
use rdispatch.Dlq.Slices.Push.{list_of, Owns, Keeps, memory_at, spelled}

contents_kept :
    (st st' : Store) (s : Slice)
    → array_at st' s.array ≡ array_at st s.array
    → contents st' s ≡ contents st s
unfolding contents
contents_kept st st' s e = ap (λ xs. take s.len (drop s.start xs)) e

pub Keeps-contents :
    {st st' : Store} {a a' : ℕ} (s : Slice)
    → Keeps st a st' a'
    → s.array < length st
    → s.array ≢ a
    → contents st' s ≡ contents st s
Keeps-contents {st} {st'} s k p q = contents_kept st st' s (k.kept s.array p q)

pub Keeps-trans : {st t u : Store} {a b c : ℕ} → Keeps st a t b → Keeps t b u c → Keeps st a u c
Keeps-trans {st} {t} {u} {a} {b} {c} k l = record {
  grows = omega (arith, k.grows, l.grows);
  kept = λ x p q. elim k.mine [
    | inl same ↦ l.kept x (omega (arith, k.grows)) (λ e. q (e ∙ same)) ∙ k.kept x p q
    | inr fresh ↦ l.kept x (omega (arith, k.grows)) (λ e. omega (arith, e)) ∙ k.kept x p q
  ];
  mine = elim l.mine [
    | inl same ↦ elim k.mine [
      | inl first ↦ inl (same ∙ first)
      | inr fresh ↦ inr (omega (arith, same))
    ]
    | inr fresh ↦ inr (omega (arith, k.grows))
  ];
}

-- What is handed out: a slice of an array that the memory does not have, with what the list gives.
pub record Handed (n : ℕ) (st : Store) (a : ℕ) (given : List Message) (after : ListMemory)
    (s : Slice) (m : Memory) (t : Store) : Type 0 where
  pub owns : Owns n t m
  pub keeps : Keeps st a t m.messages.array
  pub placed : s.array < length t
  pub apart : s.array ≢ m.messages.array
  pub reads : contents t s ≡ given
  pub refines : list_of t m ≡ after
  pub one_array : length t ≡ suc (length st)

pub drain-Handed :
    (n : ℕ) (m : Memory) (st : Store)
    → Owns n st m
    → Yields
        (λ (s, m', t).
          Handed n st m.messages.array
            (contents st m.messages)
            (list_drain (list_of st m)).1
            s
            m'
            t)
        (drain m st)
unfolding drain make allocate contents list_drain
drain-Handed n m st o =
    let t = st ++ zeros n ∷ [] in
    let size : length t ≡ suc (length st) = omega (arith, length-append st (zeros n ∷ [])) in
    let kept = λ (b : ℕ) (p : b < length st). array_at-append st (zeros n ∷ []) b p in
    rw o.capacity (
      yields (record {
        owns = record {
          capacity = refl;
          start = refl;
          placed = omega (arith, size);
          sized = ap length (array_at_last st (zeros n)) ∙ length-zeros n;
          bounded = omega arith;
        };
        keeps = record {
          grows = omega (arith, size);
          kept = λ b p q. kept b p;
          mine = inr (omega arith);
        };
        placed = omega (arith, size, o.placed);
        apart = λ e. omega (arith, e, o.placed);
        reads =
            ap (λ xs. take m.messages.len (drop m.messages.start xs))
              (kept m.messages.array o.placed);
        refines = refl;
        one_array = size;
      }))

-- What `copy` puts at the start of a new array as long as its source.
copied :
    (a k : ℕ) (st : Store)
    → a < length st
    → k ≤ length (array_at st a)
    → copy
        (record { array = length st; start = 0; len = k })
        (record { array = a; start = 0; len = k })
        (st ++ zeros k ∷ [])
      ≡ set (st ++ zeros k ∷ []) (length st) (take k (array_at st a) ++ drop k (zeros k))
unfolding copy smaller contents
copied a k st h fits =
    let no_shorter : ltb k k ≡ false = ground arith in
    let read = array_at-append st (zeros k ∷ []) a h in
    let all : take k (take k (array_at st a)) ≡ take k (array_at st a) =
      take-length k (take k (array_at st a)) (omega (arith, length-take k (array_at st a) fits)) in
    rw (no_shorter, read, all, array_at_last st (zeros k), zero-add) refl

messages-Handed_at :
    (n a k : ℕ) (st : Store)
    → Owns n st (memory_at n a k)
    → Yields
        (λ (s, t).
          Handed n st a
            (contents st (memory_at n a k).messages)
            (list_of st (memory_at n a k))
            s
            (memory_at n a k)
            t)
        (messages (memory_at n a k) st)
unfolding messages make allocate contents
messages-Handed_at n a k st o =
    let fits : k ≤ length (array_at st a) = omega (arith, o.sized, o.bounded) in
    let read = take k (array_at st a) in
    let row = read ++ drop k (zeros k) in
    let t = st ++ zeros k ∷ [] in
    let size : length t ≡ suc (length st) = omega (arith, length-append st (zeros k ∷ [])) in
    let end : length st < length t = omega (arith, size) in
    let size' : length (set t (length st) row) ≡ suc (length st) =
      length-set t (length st) row ∙ size in
    let kept = λ (b : ℕ) (p : b < length st).
      array_at-set_other t (length st) b row end (λ e. omega (arith, e, p))
      ∙ array_at-append st (zeros k ∷ []) b p in
    rw (copied a k st o.placed fits) (
      yields (record {
        owns = record {
          capacity = refl;
          start = refl;
          placed = omega (arith, size', o.placed);
          sized = ap length (kept a o.placed) ∙ o.sized;
          bounded = o.bounded;
        };
        keeps = record { grows = omega (arith, size'); kept = λ b p q. kept b p; mine = inl refl };
        placed = omega (arith, size');
        apart = λ e. omega (arith, e, o.placed);
        reads =
            ap (take k) (array_at-set_same t (length st) row end)
            ∙ take-append k read (drop k (zeros k)) (sym (length-take k (array_at st a) fits));
        refines = ap (λ xs. record { messages = take k xs; capacity = pos n }) (kept a o.placed);
        one_array = size';
      }))

pub messages-Handed :
    (n : ℕ) (m : Memory) (st : Store)
    → Owns n st m
    → Yields
        (λ (s, t). Handed n st m.messages.array (contents st m.messages) (list_of st m) s m t)
        (messages m st)
messages-Handed n m st o =
    subst
      (λ m.
        Owns n st m
        → Yields
            (λ (s, t). Handed n st m.messages.array (contents st m.messages) (list_of st m) s m t)
            (messages m st))
      (sym (spelled n st m o)) (messages-Handed_at n m.messages.array m.messages.len st) o

pub new_memory-Owns :
    (n : ℕ) (st : Store)
    → Yields
        (λ (m, t). Owns n t m × (list_of t m ≡ record { messages = []; capacity = pos n }))
        (new_memory (pos n) st)
unfolding new_memory make allocate contents
new_memory-Owns n st =
    let size = length-append st (zeros n ∷ []) in
    yields (
      record {
        capacity = refl;
        start = refl;
        placed = omega (arith, size);
        sized = ap length (array_at_last st (zeros n)) ∙ length-zeros n;
        bounded = omega arith;
      },
      refl,
    )
