-- ===== src/Priority/Locked/Whole.antt =====
-- Each method under the mutex, made whole, is the step of `Queue`.
use rdispatch.Common.{
  ◌+◌, ◌-◌, ◌≡◌, refl, sym, ◌∙◌, Bool, true, false, Option, none, some, List, [], ◌∷◌, ◌++◌, Run,
  done, ◌>>=◌, or_panic, length, get_elem?, set, take, ltb, ◌==◌, if◌then◌else◌,
}
use rdispatch.Priority.Item.{Item, zero_item}
use rdispatch.Priority.Queue.{Queue, sift_up, sift_down, push, pop, try_pop, len}
use rdispatch.Mutex.Program.{returns, reads, writes, perform}
use rdispatch.Priority.Locked.{
  Call, pushes, pops, counts, Answer, pushed, popped, counted, Body, load_at, store_at,
  sift_down_at, push_at, pop_at, try_pop_at, body,
}
use rdispatch.Priority.Locked.Accesses.{
  two_fetches, bind_assoc, read_between, perform-sift_up_at, perform-sift_down_at,
}

abbrev queue_of : List Item → Queue
queue_of a = record { items = a }

abbrev left : Item → List Item → Run (Item × Queue)
left x a = done (x, queue_of a)

abbrev answer : Item × Bool × Queue → Run (Answer × List Item)
answer (item, ok, q) = done (popped item ok, q.items)

abbrev found : Item × Queue → Run (Item × Bool × Queue)
found (item, q) = done (item, true, q)

-- The methods as steps of `Queue`.
unfoldable pub whole : Call → List Item → Run (Answer × List Item)
whole (pushes x) a = push (queue_of a) x >>= λ q. done (pushed, q.items)
whole pops a = try_pop (queue_of a) >>= answer
whole counts a = done (counted (len (queue_of a)), a)

push-whole : (x : Item) (a : List Item) → perform (push_at x) a ≡ whole (pushes x) a
unfolding push_at whole push sift_up perform
push-whole x a =
    let b = a ++ x ∷ [] in
    perform-sift_up_at (length b - 1 + 1) (length b - 1) (returns pushed) b
    ∙ sym (
        bind_assoc (sift_up b (length b - 1)) (λ c. done (queue_of c))
          (λ q. done (pushed, q.items)))

-- `pop` from the loads on, for the items that they find.
pop_then :
    (o p : Option Item) (a : List Item) (k : Item → Body)
    → (or_panic o >>= λ x. or_panic p >>= λ y.
        perform
          (let rest = take (length a - 1) (set a 0 y) in
            if ltb 0 (length rest) then sift_down_at (length rest + 1) 0 (k x) else k x)
          (take (length a - 1) (set a 0 y)))
      ≡ ((or_panic o >>= λ x. or_panic p >>= λ y.
            (let rest = take (length a - 1) (set a 0 y) in
              (if ltb 0 (length rest) then sift_down rest 0 else done rest) >>= λ b. left x b))
          >>= λ (item, q). perform (k item) q.items)
unfolding sift_down
pop_then none p a k = refl
pop_then (some x) none a k = refl
pop_then (some x) (some y) a k =
    let rest = take (length a - 1) (set a 0 y) in
    elim (ltb 0 (length rest))
      as (λ b. perform (if b then sift_down_at (length rest + 1) 0 (k x) else k x) rest ≡ (
        ((if b then sift_down rest 0 else done rest) >>= λ b. left x b) >>= λ (item, q).
        perform (k item) q.items)) [
          | true ↦
              perform-sift_down_at (length rest + 1) 0 (k x) rest
              ∙ sym (
                  bind_assoc (sift_down rest 0) (λ b. left x b)
                    (λ (item, q). perform (k item) q.items))
          | false ↦ refl
        ]

perform-pop_at :
    (a : List Item) (k : Item → Body)
    → perform (pop_at k) a ≡ (pop (queue_of a) >>= λ (item, q). perform (k item) q.items)
unfolding pop_at load_at store_at pop perform
perform-pop_at a k =
    let cut = λ (x y : Item). reads (λ b. writes (set b 0 y) (
      reads λ c.
        writes (take (length a - 1) c)
          (reads λ d. if ltb 0 (length d) then sift_down_at (length d + 1) 0 (k x) else k x))) in
    read_between (get_elem? a 0) (length a - 1) cut a
    ∙ two_fetches a (get_elem? a 0) (get_elem? a (length a - 1)) cut
    ∙ pop_then (get_elem? a 0) (get_elem? a (length a - 1)) a k

try_pop-whole : (a : List Item) → perform try_pop_at a ≡ whole pops a
unfolding try_pop_at whole try_pop perform
try_pop-whole a =
    let finds = λ (item : Item). returns (popped item true) in
    elim (length a == 0)
      as (λ b. perform (if b then returns (popped zero_item false) else pop_at finds) a ≡ (
        (if b then done (zero_item, false, queue_of a) else (pop (queue_of a) >>= found))
        >>= answer)) [
          | true ↦ refl
          | false ↦ perform-pop_at a finds ∙ sym (bind_assoc (pop (queue_of a)) found answer)
        ]

pub body-whole : (c : Call) (a : List Item) → perform (body c) a ≡ whole c a
unfolding body whole perform len
body-whole (pushes x) a = push-whole x a
body-whole pops a = try_pop-whole a
body-whole counts a = refl
