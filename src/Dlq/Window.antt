-- ===== src/Dlq/Window.antt =====
-- The dead letter queue as a window on all the messages that were pushed.
use mathlib.Core.List.{append-nil, append_assoc}
use native.Mathlib.Nat.{zero-add, suc-add}
use rdispatch.Common.{
  ℕ, zero, suc, ◌+◌, ◌-◌, ◌≤◌, ◌<◌, ◌≡◌, refl, true, false, List, [], ◌∷◌, ◌++◌, Run, done, ◌>>=◌,
  Yields, yields, arith, length, take, drop, length-append, take-length, drop-length, List-cases,
  dec_lt, ◌==◌, inl, inr, Yields-then, Yields-weaken, ap, ◌∙◌,
}
use rdispatch.Common.Int.{pos, ltb_ℤ}
use rdispatch.Dlq.Memory.{Message, Memory, stamp, drop_oldest, push}

-- The last `n` of `xs`.
abbrev pub newest : ℕ → List Message → List Message
newest n xs = drop (length xs - n) xs

-- The queue has at most as many messages as its capacity, which is at least one.
pub record IsValid (n : ℕ) (m : Memory) : Type 0 where
  pub sized : m.capacity ≡ pos n
  pub positive : 0 < n
  pub bounded : length m.messages ≤ n

abbrev Holds : ℕ → List Message → Memory → Type 0
Holds n all r = (r.messages ≡ newest n all) × IsValid n r

drop-nil : (n : ℕ) → ◌≡◌ {A = List Message} (drop n []) []
drop-nil zero = refl
drop-nil (suc n) = refl

drop-append : (n : ℕ) (xs ys : List Message) → n ≤ length xs → drop n (xs ++ ys) ≡ drop n xs ++ ys
drop-append zero xs ys h = refl
drop-append (suc n) [] ys h = absurd (omega arith)
drop-append (suc n) (x ∷ xs) ys h = drop-append n xs ys (omega arith)

pub take-append : (n : ℕ) (xs ys : List Message) → n ≡ length xs → take n (xs ++ ys) ≡ xs
take-append zero [] ys h = refl
take-append zero (x ∷ xs) ys h = absurd (omega arith)
take-append (suc n) [] ys h = absurd (omega arith)
take-append (suc n) (x ∷ xs) ys h = ap (◌∷◌ x) (take-append n xs ys (omega arith))

drop-drop : (j k : ℕ) (xs : List Message) → drop j (drop k xs) ≡ drop (k + j) xs
drop-drop j zero xs = rw zero-add
drop-drop j (suc k) [] = rw suc-add (drop-nil j)
drop-drop j (suc k) (x ∷ xs) = rw suc-add (drop-drop j k xs)

-- The shift removes the first message.
drop_oldest_lem : (x : Message) (xs : List Message) → drop_oldest (x ∷ xs) ≡ done xs
unfolding drop_oldest
drop_oldest_lem x xs =
    let last = drop (length xs) (x ∷ xs) in
    let size : length (xs ++ last) - 1 ≡ length xs =
      omega (arith, length-append xs last, drop-length (length xs) (x ∷ xs)) in
    let some_left : (length (x ∷ xs) == 0) ≡ false = ground arith in
    rw (some_left, take-length (suc (length xs)) xs (omega arith))
      (ap done (take-append (length (xs ++ last) - 1) xs last size))

-- What `Push` stores, by whether there is room.
pub push_room :
    (n : ℕ) (m : Memory) (now : ℕ) (msg : Message)
    → m.capacity ≡ pos n
    → length m.messages < n
    → push m now msg ≡ done (record m { messages = m.messages ++ stamp now msg ∷ [] })
unfolding push
push_room n m now msg e h =
    let room : ltb_ℤ (pos (length m.messages)) m.capacity ≡ true = ground arith in rw room

pub push_full :
    (n : ℕ) (m : Memory) (now : ℕ) (msg x : Message) (xs : List Message)
    → m.capacity ≡ pos n
    → length m.messages ≡ n
    → m.messages ≡ x ∷ xs
    → push m now msg ≡ done (record m { messages = xs ++ stamp now msg ∷ [] })
unfolding push
push_full n m now msg x xs e h cut =
    let full : ltb_ℤ (pos (length m.messages)) m.capacity ≡ false = ground arith in
    let shift : drop_oldest m.messages ≡ done xs = simp cut (drop_oldest_lem x xs) in
    rw (full, shift)

-- Below its capacity the queue takes the message in; at its capacity it drops the first one.
pushed_room :
    (n : ℕ) (m : Memory) (now : ℕ) (msg : Message)
    → IsValid n m
    → length m.messages < n
    → Yields (Holds n (m.messages ++ stamp now msg ∷ [])) (push m now msg)
pushed_room n m now msg v h =
    let grown = m.messages ++ stamp now msg ∷ [] in
    let size = length-append m.messages (stamp now msg ∷ []) in
    let all : length grown - n ≡ 0 = omega (arith, size) in
    rw (push_room n m now msg v.sized h) (
      yields
        (rw all, record { sized = v.sized; positive = v.positive; bounded = omega (arith, size) }))

pushed_full :
    (n : ℕ) (m : Memory) (now : ℕ) (msg x : Message) (xs : List Message)
    → IsValid n m
    → length m.messages ≡ n
    → m.messages ≡ x ∷ xs
    → Yields (Holds n (m.messages ++ stamp now msg ∷ [])) (push m now msg)
pushed_full n m now msg x xs v h e =
    let last = stamp now msg ∷ [] in
    let size : length xs + 1 ≡ n = omega (arith, ap length e) in
    let one_more : length ((x ∷ xs) ++ last) - n ≡ 1 = omega (arith, length-append xs last) in
    rw (push_full n m now msg x xs v.sized h e) (
      yields (
        simp (e, one_more),
        record {
          sized = v.sized;
          positive = v.positive;
          bounded = omega (arith, length-append xs last, size);
        },
      ))

-- One push stores the message, stamped with the time if it carries none, and keeps the newest.
pub push-newest :
    (n : ℕ) (m : Memory) (now : ℕ) (msg : Message)
    → IsValid n m
    → Yields
        (λ r. (r.messages ≡ newest n (m.messages ++ stamp now msg ∷ [])) × IsValid n r)
        (push m now msg)
push-newest n m now msg v = elim (dec_lt (length m.messages) n) [
  | yes h ↦ pushed_room n m now msg v h
  | no h ↦ elim (List-cases m.messages) [
    | inl e ↦ absurd (omega (arith, v.positive, ap length e))
    | inr (x, xs, e) ↦ pushed_full n m now msg x xs v (omega (arith, v.bounded)) e
  ]
]

pub newest-append :
    (n : ℕ) (xs ys : List Message) → newest n (newest n xs ++ ys) ≡ newest n (xs ++ ys)
newest-append n xs ys =
    let k = length xs - n in
    let joined = drop-append k xs ys (omega arith) in
    let size : k + (length (drop k (xs ++ ys)) - n) ≡ length (xs ++ ys) - n =
      omega (arith, drop-length k (xs ++ ys), length-append xs ys) in
    rw (← joined) (drop-drop _ k (xs ++ ys) ∙ ap (λ j. drop j (xs ++ ys)) size)

regroup :
    (n : ℕ) (xs : List Message) (x : Message) (ys kept : List Message)
    → kept ≡ newest n (xs ++ x ∷ [])
    → newest n (kept ++ ys) ≡ newest n (xs ++ x ∷ ys)
regroup n xs x ys kept e =
    rw (e, newest-append n (xs ++ x ∷ []) ys) (ap (newest n) (append_assoc xs (x ∷ []) ys))

pub newest-all : (n : ℕ) (xs : List Message) → length xs ≤ n → newest n xs ≡ xs
newest-all n xs h = let all : length xs - n ≡ 0 = omega arith in ap (λ k. drop k xs) all

-- Pushes in turn, each at its own time.
unfoldable pub push_all : List (ℕ × Message) → Memory → Run Memory
push_all [] m = done m
push_all ((now, msg) ∷ more) m = push m now msg >>= push_all more

abbrev pub stamped : List (ℕ × Message) → List Message
stamped [] = []
stamped ((now, msg) ∷ more) = stamp now msg ∷ stamped more

-- After any pushes on a valid queue it holds the newest of all the messages, in order, as many as its
-- capacity.
pub push_all-newest :
    (n : ℕ) (m : Memory) (more : List (ℕ × Message))
    → IsValid n m
    → Yields
        (λ r. (r.messages ≡ newest n (m.messages ++ stamped more)) × IsValid n r)
        (push_all more m)
unfolding push_all
push_all-newest n m [] v =
    yields (
      (rw append-nil (let all : length m.messages - n ≡ 0 = omega (arith, v.bounded) in rw all)),
      v,
    )
push_all-newest n m ((now, msg) ∷ more) v = Yields-then (push-newest n m now msg v) λ r (e, w).
    Yields-weaken (push_all-newest n r more w)
      λ s (e', u). (e' ∙ regroup n m.messages (stamp now msg) (stamped more) r.messages e, u)
