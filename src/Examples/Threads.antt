-- ===== src/Examples/Threads.antt =====
-- Two goroutines on one queue.
use rdispatch.Common.{ℕ, ◌+◌, ◌-◌, refl, length, none, some, List, [], ◌∷◌}
use rdispatch.Mutex.Program.{returns, reads, writes}
use rdispatch.Mutex.Threads.{
  Thread, State, calls, locks, loads, stores, unlocks, Reach, here, next, starting, inside, outside,
  waits, update,
}
use rdispatch.Mutex.Served.{Served}
use rdispatch.Priority.Item.{Item}
use rdispatch.Priority.Order.{IsHeap}
use rdispatch.Priority.Queue.{new}
use rdispatch.Priority.WaitLaws.{new-IsValid}
use rdispatch.Priority.Locked.{Call, pushes, pops, Answer, pushed, Body, body, sift_up_at, push_at}
use rdispatch.Priority.Locked.Safe.{Did, threads-Did, waiting-Served}
use rdispatch.Examples.Queues.{urgent}

abbrev Pair : Type 0
Pair = State (List Item) Call Answer

abbrev goes : Pair → ℕ → Thread (List Item) Call Answer → Pair
goes s i t = record s { threads = update s.threads i t }

-- Both goroutines wait for the lock.
abbrev both_wait : Pair
both_wait = goes (goes (starting []) 0 (waits pops)) 1 (waits (pushes urgent))

abbrev within : Body → Pair → Pair
within p s = goes s 1 (inside (pushes urgent) p)

-- The second has the lock.
abbrev has_lock : Pair
has_lock = within (body (pushes urgent)) (record both_wait { owner = some 1 })

abbrev has_loaded : Pair
has_loaded =
    within
      (writes (urgent ∷ [])
        (reads λ b. sift_up_at (length b - 1 + 1) (length b - 1) (returns pushed)))
      has_lock

abbrev has_stored : Pair
has_stored =
    within (reads λ b. sift_up_at (length b - 1 + 1) (length b - 1) (returns pushed))
      (record has_loaded { memory = urgent ∷ [] })

abbrev has_pushed : Pair
has_pushed = within (returns pushed) has_stored

abbrev has_unlocked : Pair
has_unlocked =
    goes (record has_pushed { owner = none; history = (pushes urgent, pushed) ∷ [] }) 1 outside

both_wait-Reach : Reach body (starting []) both_wait
both_wait-Reach =
    let empty : Reach body (starting []) (starting []) = here in
    next (next empty (calls 0 pops refl)) (calls 1 (pushes urgent) refl)

has_loaded-Reach : Reach body (starting []) has_loaded
unfolding body push_at
has_loaded-Reach =
    let locked : Reach body (starting []) has_lock =
      next both_wait-Reach (locks 1 (pushes urgent) refl refl) in
    next locked (loads 1 (pushes urgent) _ refl)

has_unlocked-Reach : Reach body (starting []) has_unlocked
unfolding push_at sift_up_at
has_unlocked-Reach =
    let stored : Reach body (starting []) has_stored =
      next has_loaded-Reach (stores 1 (pushes urgent) _ _ refl) in
    let pushed_it : Reach body (starting []) has_pushed =
      next stored (loads 1 (pushes urgent) _ refl) in
    next pushed_it (unlocks 1 (pushes urgent) pushed refl)

threads-Did_example : Did [] ((pushes urgent, pushed) ∷ []) (urgent ∷ []) × IsHeap (urgent ∷ [])
unfolding new
threads-Did_example = threads-Did [] has_unlocked new-IsValid has_unlocked-Reach refl

waiting-Served_example : Served body has_loaded 0 pops
unfolding new
waiting-Served_example = waiting-Served [] has_loaded 0 pops new-IsValid has_loaded-Reach refl
