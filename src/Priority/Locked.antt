-- ===== src/Priority/Locked.antt =====
-- `Queue` under its mutex, one access to the slice at a time. The module Queue has each method as one step.
-- `Push` signals after it has unlocked, and `Pop` gives the lock up between: both are in Wait.
pub mod Accesses
pub mod Whole
pub mod Safe
use rdispatch.Common.{
  ℕ, zero, suc, ◌+◌, ◌-◌, ◌*◌, ◌/◌, Bool, true, false, List, [], ◌∷◌, ◌++◌, length, get_elem?, set,
  take, ltb, ◌==◌, if◌then◌else◌,
}
use rdispatch.Priority.Item.{Item, zero_item, lower}
use rdispatch.Mutex.Program.{Program, returns, gives_out, reads, writes, fetch}

-- The methods that hold the lock from beginning to end, and what they return.
pub data Call : Type 0 where
  pushes : Item → Call
  pops counts : Call

pub data Answer : Type 0 where
  pushed : Answer
  popped : Item → Bool → Answer
  counted : ℕ → Answer

-- What is left of a call; each access takes what follows it.
abbrev pub Body : Type 0
Body = Program (List Item) Answer

unfoldable pub load_at : ℕ → (Item → Body) → Body
load_at i k = reads λ a. fetch (get_elem? a i) k

unfoldable pub store_at : ℕ → Item → Body → Body
store_at i x k = reads λ a. writes (set a i x) k

unfoldable pub less_at : ℕ → ℕ → (Bool → Body) → Body
less_at i j k = load_at i λ x. load_at j λ y. k (lower x y)

-- `a[i], a[j] = a[j], a[i]`.
unfoldable pub exchange_at : ℕ → ℕ → Body → Body
exchange_at i j k = load_at j λ y. load_at i λ x. store_at i y (store_at j x k)

unfoldable pub sift_up_at : ℕ → ℕ → Body → Body
sift_up_at zero i k = gives_out
sift_up_at (suc fuel) i k =
    let parent : ℕ = (i - 1) / 2 in
    let rise = exchange_at i parent (sift_up_at fuel parent k) in
    if ltb 0 i then less_at parent i (λ below. if below then rise else k) else k

unfoldable pub better_at : ℕ → ℕ → (ℕ → Body) → Body
better_at best child k = reads λ a.
    if ltb child (length a)
    then less_at best child (λ below. k (if below then child else best))
    else k best

unfoldable pub sift_down_at : ℕ → ℕ → Body → Body
sift_down_at zero i k = gives_out
sift_down_at (suc fuel) i k = better_at i (2 * i + 1) λ with_left.
    better_at with_left (2 * i + 2)
      λ best. if best == i then k else exchange_at i best (sift_down_at fuel best k)

unfoldable pub push_at : Item → Body
push_at item = reads λ a.
    writes (a ++ item ∷ [])
      (reads λ b. sift_up_at (length b - 1 + 1) (length b - 1) (returns pushed))

-- The unexported `pop`.
unfoldable pub pop_at : (Item → Body) → Body
pop_at k = reads λ a. load_at 0 λ item. load_at (length a - 1) λ last. store_at 0 last (
    reads λ b.
      writes (take (length a - 1) b)
        (reads λ c. if ltb 0 (length c) then sift_down_at (length c + 1) 0 (k item) else k item))

unfoldable pub try_pop_at : Body
try_pop_at = reads λ a.
    if length a == 0
    then returns (popped zero_item false)
    else pop_at (λ item. returns (popped item true))

unfoldable pub body : Call → Body
body (pushes x) = push_at x
body pops = try_pop_at
body counts = reads λ a. returns (counted (length a))
