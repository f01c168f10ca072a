-- ===== src/Dlq/Memory.antt =====
-- `Message`, `Memory` and its methods. A method holds the mutex throughout, so it is one step. Its
-- slices are never shared: `Messages` returns a copy, and `Drain` gives its slice away.
use rdispatch.Common.{
  ℕ, ◌-◌, String, List, [], ◌∷◌, ◌++◌, Run, done, panic, ◌>>=◌, length, take, drop, ◌==◌,
  if◌then◌else◌,
}
use rdispatch.Common.Int.{ℤ, pos, ltb_ℤ}
use rdispatch.Common.Text.{concat, decimal}

-- `failed_at` is an instant in nanoseconds since Go's zero time, for which `IsZero` holds.
pub record Message : Type 0 where
  pub original_topic : String
  pub key : List ℕ
  pub value : List ℕ
  pub error : String
  pub attempts : ℤ
  pub failed_at : ℕ
  pub headers : List (String × String)

pub record Memory : Type 0 where
  pub messages : List Message
  pub capacity : ℤ

-- `make` panics on a negative capacity.
unfoldable pub new_memory : ℤ → Run Memory
new_memory capacity =
    if ltb_ℤ capacity (pos 0) then panic else done (record { messages = []; capacity = capacity })

-- `copy(dst, src)` for slices of one array: the start of `dst` is overwritten.
unfoldable copy : List Message → List Message → List Message
copy dst src = take (length dst) src ++ drop (length src) dst

-- `xs[1:]`.
unfoldable pub from_one : List Message → Run (List Message)
from_one xs = if length xs == 0 then panic else done (drop 1 xs)

-- `if msg.FailedAt.IsZero() { msg.FailedAt = time.Now() }`.
unfoldable pub stamp : ℕ → Message → Message
stamp now msg = if msg.failed_at == 0 then record msg { failed_at = now } else msg

-- Shift left by one, and cut the last place off.
unfoldable pub drop_oldest : List Message → Run (List Message)
unfolding copy from_one
drop_oldest xs =
    from_one xs >>= λ rest. let shifted = copy xs rest in done (take (length shifted - 1) shifted)

-- The error that `Push` returns is always nil.
unfoldable pub push : Memory → ℕ → Message → Run Memory
push m now msg =
    let stamped = stamp now msg in
    let room =
      if ltb_ℤ (pos (length m.messages)) m.capacity
      then done m.messages
      else drop_oldest m.messages in
    room >>= λ kept. done (record m { messages = kept ++ stamped ∷ [] })

unfoldable pub len : Memory → ℕ
len m = length m.messages

unfoldable pub messages : Memory → List Message
messages m = m.messages

unfoldable pub drain : Memory → List Message × Memory
drain m = (m.messages, record m { messages = [] })

-- `FormatError`.
unfoldable pub format_error : String → String → ℤ → String
format_error topic err attempts =
    concat ("topic=" ∷ topic ∷ " attempts=" ∷ decimal attempts ∷ " error=" ∷ err ∷ [])
