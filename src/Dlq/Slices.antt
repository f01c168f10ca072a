-- ===== src/Dlq/Slices.antt =====
-- `Memory` as Go runs it: slices of arrays that calls share, and that `Messages` and `Drain` hand out.
pub mod Arrays
pub mod Push
pub mod Handed
pub mod Refines
use rdispatch.Common.{
  ℕ, zero, suc, ◌+◌, ◌-◌, Bool, List, [], ◌∷◌, ◌++◌, Run, done, panic, ◌>>=◌, length, take, drop,
  set, get_or, ltb, ◌==◌, if◌then◌else◌,
}
use rdispatch.Common.Int.{ℤ, pos, negsuc, ltb_ℤ}
use rdispatch.Dlq.Memory.{Message, stamp}

-- All arrays, by their addresses. A slice is `len` places of one, from `start` on.
abbrev pub Store : Type 0
Store = List (List Message)

pub record Slice : Type 0 where
  pub array : ℕ
  pub start : ℕ
  pub len : ℕ

unfoldable pub array_at : Store → ℕ → List Message
unfolding get_or
array_at st a = get_or st a []

-- What is read through a slice.
unfoldable pub contents : Store → Slice → List Message
contents st s = take s.len (drop s.start (array_at st s.array))

abbrev pub zero_message : Message
zero_message = record {
  original_topic = "";
  key = [];
  value = [];
  error = "";
  attempts = pos 0;
  failed_at = 0;
  headers = [];
}

unfoldable pub zeros : ℕ → List Message
zeros zero = []
zeros (suc n) = zero_message ∷ zeros n

-- A new array, and a slice of its first places.
unfoldable pub allocate : ℕ → List Message → Store → Slice × Store
allocate len places st = (record { array = length st; start = 0; len = len }, st ++ places ∷ [])

-- `make([]Message, len, capacity)`, for a `len` that is no greater.
unfoldable pub make : ℕ → ℤ → Store → Run (Slice × Store)
make len (pos n) st = done (allocate len (zeros n) st)
make len (negsuc n) st = panic

unfoldable pub smaller : ℕ → ℕ → ℕ
smaller m n = if ltb m n then m else n

-- `copy(dst, src)`: what is moved is read before it is written.
unfoldable pub copy : Slice → Slice → Store → Store
copy dst src st =
    let count = smaller dst.len src.len in
    let moved = take count (contents st src) in
    let places = array_at st dst.array in
    set st dst.array (take dst.start places ++ (moved ++ drop (dst.start + count) places))

-- `append(s, msg)`: in place while the array has room behind the slice, and otherwise in a new array,
-- with as many more places as the runtime likes.
unfoldable pub append : ℕ → Slice → Message → Store → Slice × Store
append spare s msg st =
    let places = array_at st s.array in
    if ltb (s.start + s.len) (length places)
    then (record s { len = suc s.len }, set st s.array (set places (s.start + s.len) msg))
    else allocate (suc s.len) (contents st s ++ msg ∷ zeros spare) st

-- `s[1:]`.
unfoldable pub from_one : Slice → Run Slice
from_one s = if s.len == 0 then panic else done (record s { start = s.start + 1; len = s.len - 1 })

pub record Memory : Type 0 where
  pub messages : Slice
  pub capacity : ℤ

unfoldable pub new_memory : ℤ → Store → Run (Memory × Store)
new_memory capacity st =
    make 0 capacity st >>= λ (s, t). done (record { messages = s; capacity = capacity }, t)

-- `copy(m.messages, m.messages[1:])`, and one place less.
unfoldable pub drop_oldest : Slice → Store → Run (Slice × Store)
drop_oldest s st = from_one s >>= λ rest. done (record s { len = s.len - 1 }, copy s rest st)

unfoldable pub push : ℕ → Memory → ℕ → Message → Store → Run (Memory × Store)
push spare m now msg st =
    let room =
      if ltb_ℤ (pos m.messages.len) m.capacity
      then done (m.messages, st)
      else drop_oldest m.messages st in
    room >>= λ (s, t).
    let (s', u) = append spare s (stamp now msg) t in done (record m { messages = s' }, u)

-- `Messages`: a copy in an array of its own.
unfoldable pub messages : Memory → Store → Run (Slice × Store)
messages m st =
    make m.messages.len (pos m.messages.len) st >>= λ (s, t). done (s, copy s m.messages t)

-- `Drain`: the slice itself, and a new array for what follows.
unfoldable pub drain : Memory → Store → Run (Slice × Memory × Store)
drain m st = make 0 m.capacity st >>= λ (s, t). done (m.messages, record m { messages = s }, t)
