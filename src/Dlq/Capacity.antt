-- ===== src/Dlq/Capacity.antt =====
-- The first push at each capacity, and `Drain` after some pushes.
use rdispatch.Common.{
  if◌then◌else◌, ℕ, ◌-◌, ◌≤◌, ◌≡◌, refl, List, [], ◌∷◌, ◌++◌, done, panic, ◌>>=◌, Yields, yields,
  Yields-weaken, Yields-branch, arith, length, drop, ◌∙◌, ap,
}
use rdispatch.Common.Int.{ℤ, pos, ltb_ℤ}
use rdispatch.Dlq.Memory.{
  Message, Memory, new_memory, stamp, push, drop_oldest, from_one, len, drain,
}
use rdispatch.Dlq.Window.{IsValid, push_all, stamped, push_all-newest}

pub new_memory-IsValid : (n : ℕ) → 1 ≤ n → Yields (IsValid n) (new_memory (pos n))
unfolding new_memory
new_memory-IsValid n h =
    Yields-branch (ltb_ℤ (pos n) (pos 0)) (λ e. absurd (ground arith))
      (λ e. yields (record { sized = refl; positive = h; bounded = omega arith }))

-- A queue of capacity at least one takes its first message; with any lower capacity the process
-- panics, in `make` or in `Push`.
pub push-new_memory :
    (capacity : ℤ) (now : ℕ) (msg : Message)
    → (new_memory capacity >>= λ m. push m now msg) ≡ (
        if ltb_ℤ (pos 0) capacity
        then done (record { messages = stamp now msg ∷ []; capacity = capacity })
        else panic)
unfolding new_memory push drop_oldest from_one
push-new_memory capacity now msg = ground arith

-- As long as the messages fit, a `Drain` after any pushes returns every one of them, in order, and
-- leaves an empty queue of the same capacity.
pub drain-push_all :
    (n : ℕ) (m : Memory) (more : List (ℕ × Message))
    → IsValid n m
    → length (m.messages ++ stamped more) ≤ n
    → Yields
        (λ r.
          ((drain r).0 ≡ m.messages ++ stamped more)
          × (len (drain r).1 ≡ 0)
          × IsValid n (drain r).1)
        (push_all more m)
unfolding drain len
drain-push_all n m more v fits = Yields-weaken (push_all-newest n m more v) λ r (e, w).
    let all : length (m.messages ++ stamped more) - n ≡ 0 = omega arith in
    (
      e ∙ ap (λ k. drop k (m.messages ++ stamped more)) all,
      refl,
      record { sized = w.sized; positive = w.positive; bounded = omega arith },
    )
