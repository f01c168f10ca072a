-- ===== src/Dlq/Slices/Push.antt =====
-- `Push` on slices: it writes into the array that it has, and into no other.
use native.Mathlib.Nat.{zero-add}
use rdispatch.Common.{
  ℕ, zero, suc, ◌-◌, ◌≤◌, ◌<◌, ◌≡◌, ◌≢◌, refl, ap, sym, ◌∙◌, subst, true, false, List, [], ◌∷◌,
  ◌++◌, done, Yields, yields, length, take, drop, set, length-set, length-append, take-length,
  drop-length, arith, ltb, ◌==◌, ◌⊎◌, inl, inr, dec_lt, List-cases,
}
use rdispatch.Common.Int.{pos, ltb_ℤ}
use rdispatch.Dlq.Memory.{Message, stamp, Memory as ListMemory, push as list_push}
use rdispatch.Dlq.Window.{push_room, push_full, take-append}
use rdispatch.Dlq.Slices.{
  Store, array_at, contents, smaller, copy, append, from_one, Memory, drop_oldest, push,
}
use rdispatch.Dlq.Slices.Arrays.{
  take-set, array_at-set_same, array_at-set_other, length-take, set-set,
}

-- What the slices of a memory hold.
abbrev pub list_of : Store → Memory → ListMemory
list_of st m = record { messages = contents st m.messages; capacity = m.capacity }

-- A memory that has its array to itself: all of it is its capacity, from the first place on.
pub record Owns (n : ℕ) (st : Store) (m : Memory) : Type 0 where
  pub capacity : m.capacity ≡ pos n
  pub start : m.messages.start ≡ 0
  pub placed : m.messages.array < length st
  pub sized : length (array_at st m.messages.array) ≡ n
  pub bounded : m.messages.len ≤ n

-- From `st` to `st'` only the array `a` is written; then the memory has `a` or an array that is new.
pub record Keeps (st : Store) (a : ℕ) (st' : Store) (a' : ℕ) : Type 0 where
  pub grows : length st ≤ length st'
  pub kept : (b : ℕ) → b < length st → b ≢ a → array_at st' b ≡ array_at st b
  pub mine : (a' ≡ a) ⊎ (length st ≤ a')

-- The array is still the same one, and the memory still has it to itself.
pub record Pushed (n : ℕ) (st : Store) (m : Memory) (after : ListMemory) (r : Memory × Store)
    : Type 0 where
  pub owns : Owns n r.1 r.0
  pub refines : list_of r.1 r.0 ≡ after
  pub keeps : Keeps st m.messages.array r.1 r.0.messages.array
  pub no_array : length r.1 ≡ length st

abbrev pub memory_at : ℕ → ℕ → ℕ → Memory
memory_at n a k = record { messages = record { array = a; start = 0; len = k }; capacity = pos n }

-- Writing the array `xs` in place of that at `a`.
written :
    (n a k : ℕ) (st : Store) (m : Memory) (xs msgs : List Message)
    → m.messages.array ≡ a
    → a < length st
    → length xs ≡ n
    → k ≤ n
    → take k xs ≡ msgs
    → Pushed n st m (record { messages = msgs; capacity = pos n }) (memory_at n a k, set st a xs)
unfolding contents
written n a k st m xs msgs same h size fits e = record {
  owns = record {
    capacity = refl;
    start = refl;
    placed = omega (arith, length-set st a xs);
    sized = ap length (array_at-set_same st a xs h) ∙ size;
    bounded = fits;
  };
  refines =
      ap (λ l. record { messages = l; capacity = pos n })
        (ap (take k) (array_at-set_same st a xs h) ∙ e);
  keeps = record {
    grows = omega (arith, length-set st a xs);
    kept = λ b p q. array_at-set_other st a b xs h (λ e. q (e ∙ sym same));
    mine = inl (sym same);
  };
  no_array = length-set st a xs;
}

-- `append` within the array.
append_in_place :
    (spare a k : ℕ) (msg : Message) (st : Store)
    → k < length (array_at st a)
    → append spare (record { array = a; start = 0; len = k }) msg st
      ≡ (record { array = a; start = 0; len = suc k }, set st a (set (array_at st a) k msg))
unfolding append
append_in_place spare a k msg st h =
    let room : ltb k (length (array_at st a)) ≡ true = ground arith in rw (zero-add, room) refl

-- `Push` on slices ends as `Push` on the list does.
abbrev pub PushRefines : ℕ → ℕ → Memory → ℕ → Message → Store → Type 0
PushRefines spare n m now msg st =
    Yields (λ r. Yields (λ after. Pushed n st m after r) (list_push (list_of st m) now msg))
      (push spare m now msg st)

-- With room left.
push_below :
    (spare n a k now : ℕ) (msg : Message) (st : Store)
    → Owns n st (memory_at n a k)
    → k < n
    → PushRefines spare n (memory_at n a k) now msg st
unfolding push contents
push_below spare n a k now msg st o h =
    let room : ltb_ℤ (pos k) (pos n) ≡ true = ground arith in
    let v = stamp now msg in
    let places = array_at st a in
    let inside : k < length places = omega (arith, o.sized) in
    let size = length-take k places (omega arith) in
    rw (room, append_in_place spare a k v st inside)
      (yields (
        rw (push_room n (list_of st (memory_at n a k)) now msg refl (omega (arith, size))) (
          yields (
            written n a (suc k) st (memory_at n a k) (set places k v) (take k places ++ v ∷ []) refl
              o.placed (length-set places k v ∙ o.sized) h (take-set k places v inside)))))

-- The shift on a full array: the others move down by one, and the last place is cut off.
drop_oldest_lem :
    (a j : ℕ) (y : Message) (ys : List Message) (st : Store)
    → array_at st a ≡ y ∷ ys
    → length ys ≡ j
    → drop_oldest (record { array = a; start = 0; len = suc j }) st
      ≡ done (record { array = a; start = 0; len = j }, set st a (ys ++ drop j (y ∷ ys)))
unfolding drop_oldest from_one copy smaller contents
drop_oldest_lem a j y ys st e h =
    let shorter : ltb (suc j) j ≡ false = ground arith in
    let some_left : (suc j == 0) ≡ false = ground arith in
    let moved : take j (take j ys) ≡ ys =
      ap (take j) (take-length j ys (omega arith)) ∙ take-length j ys (omega arith) in
    let less : suc j - 1 ≡ j = omega arith in
    rw (some_left, less, copy, shorter, e, zero-add, moved) refl

push_at_capacity :
    (spare a j now : ℕ) (msg : Message) (y : Message) (ys : List Message) (st : Store)
    → array_at st a ≡ y ∷ ys
    → Owns (suc j) st (memory_at (suc j) a (suc j))
    → PushRefines spare (suc j) (memory_at (suc j) a (suc j)) now msg st
unfolding push contents
push_at_capacity spare a j now msg y ys st e o =
    let full : ltb_ℤ (pos (suc j)) (pos (suc j)) ≡ false = ground arith in
    let v = stamp now msg in
    let size : length ys ≡ j = omega (arith, ap length e, o.sized) in
    let moved = ys ++ drop j (y ∷ ys) in
    let whole : length moved ≡ suc j =
      omega (arith, length-append ys (drop j (y ∷ ys)), drop-length j (y ∷ ys)) in
    let t = set st a moved in
    let there : array_at t a ≡ moved = array_at-set_same st a moved o.placed in
    let inside : j < length (array_at t a) = omega (arith, ap length there) in
    let before : take (suc j) (array_at st a) ≡ y ∷ ys =
      ap (take (suc j)) e ∙ ap (◌∷◌ y) (take-length j ys (omega arith)) in
    rw (full, drop_oldest_lem a j y ys st e size, append_in_place spare a j v t inside, there)
      (yields (
        rw
          (push_full (suc j) (list_of st (memory_at (suc j) a (suc j))) now msg y ys refl
            (omega (arith, ap length before)) before)
          (yields (
            rw (set-set st a moved (set moved j v)) (
              written (suc j) a (suc j) st (memory_at (suc j) a (suc j)) (set moved j v)
                (ys ++ v ∷ []) refl o.placed (length-set moved j v ∙ whole) (omega arith)
                (take-set j moved v (omega (arith, whole))
                  ∙ ap (λ l. l ++ v ∷ []) (take-append j ys (drop j (y ∷ ys)) (sym size))))))))

push_full_at :
    (spare n a k now : ℕ) (msg : Message) (st : Store) (y : Message) (ys : List Message)
    → 0 < n
    → n ≡ k
    → array_at st a ≡ y ∷ ys
    → Owns n st (memory_at n a k)
    → PushRefines spare n (memory_at n a k) now msg st
push_full_at spare zero a k now msg st y ys h all e o = absurd (omega arith)
push_full_at spare (suc j) a k now msg st y ys h all e o =
    subst
      (λ (k : ℕ).
        Owns (suc j) st (memory_at (suc j) a k)
        → PushRefines spare (suc j) (memory_at (suc j) a k) now msg st)
      all (push_at_capacity spare a j now msg y ys st e) o

push-Pushed_at :
    (spare n a k now : ℕ) (msg : Message) (st : Store)
    → 0 < n
    → Owns n st (memory_at n a k)
    → PushRefines spare n (memory_at n a k) now msg st
push-Pushed_at spare n a k now msg st h o = elim (dec_lt k n) [
  | yes below ↦ push_below spare n a k now msg st o below
  | no full ↦ elim (List-cases (array_at st a)) [
    | inl e ↦ absurd (omega (arith, ap length e, o.sized))
    | inr (y, ys, e) ↦ push_full_at spare n a k now msg st y ys h (omega (arith, o.bounded)) e o
  ]
]

-- A memory that has its array to itself is as it is written out.
pub spelled :
    (n : ℕ) (st : Store) (m : Memory)
    → Owns n st m
    → m ≡ memory_at n m.messages.array m.messages.len
spelled n st m o i = record {
  messages = record { array = m.messages.array; start = o.start i; len = m.messages.len };
  capacity = o.capacity i;
}

-- A memory that has its array to itself keeps it: `Push` does on slices what it does on the list, writes
-- into no other array, and allocates none.
pub push-Pushed :
    (spare n now : ℕ) (m : Memory) (msg : Message) (st : Store)
    → 0 < n
    → Owns n st m
    → PushRefines spare n m now msg st
push-Pushed spare n now m msg st h o =
    subst (λ m. Owns n st m → PushRefines spare n m now msg st) (sym (spelled n st m o))
      (push-Pushed_at spare n m.messages.array m.messages.len now msg st h) o
