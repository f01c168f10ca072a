-- ===== src/Priority/Queue.antt =====
-- The heap operations of `Queue`. An operation holds the mutex from its first to its last access,
-- so it is one step here. Indices stay below twice the length plus two, far below Go's `int`.
use rdispatch.Common.{
  ℕ, zero, suc, ◌+◌, ◌-◌, ◌*◌, ◌/◌, Bool, true, false, List, [], ◌∷◌, ◌++◌, Run, done, out_of_fuel,
  ◌>>=◌, load, length, set, take, ltb, ◌==◌, if◌then◌else◌,
}
use rdispatch.Priority.Item.{Item, zero_item, lower}

pub record Queue : Type 0 where
  pub items : List Item

unfoldable pub new : Queue
new = record { items = [] }

unfoldable pub less : List Item → ℕ → ℕ → Run Bool
less a i j = do x ← load a i; y ← load a j; done (lower x y)

-- `a[i], a[j] = a[j], a[i]`.
unfoldable pub exchange : List Item → ℕ → ℕ → Run (List Item)
exchange a i j = do y ← load a j; x ← load a i; done (set (set a i y) j x)

-- The loop of `siftUp`, on fuel.
unfoldable pub sift_up_loop : ℕ → List Item → ℕ → Run (List Item)
sift_up_loop zero a i = out_of_fuel
sift_up_loop (suc fuel) a i =
    let parent : ℕ = (i - 1) / 2 in
    let rise = exchange a i parent >>= λ b. sift_up_loop fuel b parent in
    let round = less a parent i >>= λ below. if below then rise else done a in
    if ltb 0 i then round else done a

-- The index falls in each round, so `i + 1` rounds are enough.
unfoldable pub sift_up : List Item → ℕ → Run (List Item)
unfolding sift_up_loop less exchange
sift_up a i = sift_up_loop (i + 1) a i

-- `if child < n && q.less(best, child) { best = child }`.
unfoldable pub better : List Item → ℕ → ℕ → Run ℕ
better a best child =
    if ltb child (length a)
    then (do below ← less a best child; done (if below then child else best))
    else done best

-- The loop of `siftDown`, on fuel.
unfoldable pub sift_down_loop : ℕ → List Item → ℕ → Run (List Item)
sift_down_loop zero a i = out_of_fuel
sift_down_loop (suc fuel) a i = do
  with_left ← better a i (2 * i + 1)
  best ← better a with_left (2 * i + 2)
  let sink = exchange a i best >>= λ b. sift_down_loop fuel b best
  if best == i then done a else sink

-- The index grows in each round and stays within the slice.
unfoldable pub sift_down : List Item → ℕ → Run (List Item)
unfolding sift_down_loop better less exchange
sift_down a i = sift_down_loop (length a + 1) a i

unfoldable pub push : Queue → Item → Run Queue
push q item =
    let grown = q.items ++ item ∷ [] in
    sift_up grown (length grown - 1) >>= λ a. done (record q { items = a })

-- The unexported `pop`, on a queue that its callers have found not empty.
unfoldable pub pop : Queue → Run (Item × Queue)
pop q = do
  item ← load q.items 0
  last ← load q.items (length q.items - 1)
  let rest = take (length q.items - 1) (set q.items 0 last)
  a ← if ltb 0 (length rest) then sift_down rest 0 else done rest
  done (item, record q { items = a })

unfoldable pub try_pop : Queue → Run (Item × Bool × Queue)
try_pop q =
    if length q.items == 0
    then done (zero_item, false, q)
    else (pop q >>= λ (item, r). done (item, true, r))

unfoldable pub len : Queue → ℕ
len q = length q.items
