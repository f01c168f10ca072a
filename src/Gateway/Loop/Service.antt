-- ===== src/Gateway/Loop/Service.antt =====
-- What `drainQueue` promises, whatever its pushers do: a service on bags.
use mathlib.Core.Quot
use rdispatch.Common.{
  ◌<◌, ◌≡◌, refl, ap, sym, subst, Bool, true, false, Option, none, some, List, [], ◌∷◌, ◌++◌, Perm,
  arith, length, Yields-at,
}
use rdispatch.Priority.Item.{Item, zero_item}
use rdispatch.Priority.Queue.{Queue}
use rdispatch.Priority.Push.{IsValid, push-Holds}
use rdispatch.Priority.Pop.{Popped, pop-Popped}
use rdispatch.Priority.Bag.{Bag, bag_of, put, IsTop}
use rdispatch.Priority.History.{Outranks-of_Above}
use rdispatch.Priority.Wait.{
  State, Consumer, testing, selecting, returned, Helper, Event, Step as PopStep, pushes, closes,
  signals_one, takes, launches, parks, wakes, resumes, gives_up, wake_up,
}
use rdispatch.Priority.WaitLaws.{Inv, calling-Inv, Step-Inv as PopStep-Inv}
use rdispatch.Gateway.Loop.{
  Loop, start, Step, pops, publishes, fails, Reach, here, next, held, has_returned,
}

-- What a client may know of the loop: the bag of the queued items, the item under way, what was
-- published, whether the context has ended, and whether the loop has returned.
pub record Service : Type 0 where
  pub queued : Bag
  pub under_way : Option Item
  pub sent : List Item
  pub is_done : Bool
  pub returned : Bool

abbrev pub view : Bag → Consumer → List Item → Bool → Service
view b c sent is_done = record {
  queued = b;
  under_way = held c;
  sent = sent;
  is_done = is_done;
  returned = has_returned c;
}

abbrev pub service_of : Loop → Service
service_of s = view (bag_of s.pop.queue.items) s.pop.consumer s.published s.pop.is_done

-- One item at a time is taken out, one that outranks all that are queued, and it is sent or put back; the
-- service returns only after the end of the context, with no item under way.
pub data Serves (s : Service) : Service → Type 0 where
  arrives : (x : Item) → Serves s (record s { queued = put x s.queued })
  ends : Serves s (record s { is_done = true })
  takes_out :
      (x : Item) (rest : Bag)
      → s.under_way ≡ none
      → s.returned ≡ false
      → put x rest ≡ s.queued
      → IsTop x s.queued
      → Serves s (record s { queued = rest; under_way = some x })
  sends :
      (x : Item)
      → s.under_way ≡ some x
      → Serves s (record s { sent = s.sent ++ x ∷ []; under_way = none })
  puts_back :
      (x : Item)
      → s.under_way ≡ some x
      → Serves s (record s { queued = put x s.queued; under_way = none })
  stops :
      s.under_way ≡ none
      → s.returned ≡ false
      → s.is_done ≡ true
      → Serves s (record s { returned = true })

pub data Served (s : Service) : Service → Type 0 where
  still : Served s s
  step : {t u : Service} → Served s t → Serves t u → Served s u

-- A step that leads to the service `u`, up to an equation.
Served-by : {s t u : Service} → Serves s t → t ≡ u → Served s u
Served-by {s} p e = subst (Served s) e (step still p)

Served-eq : {s t : Service} → s ≡ t → Served s t
Served-eq {s} e = subst (Served s) e still

Served-trans : {s t u : Service} → Served s t → Served t u → Served s u
Served-trans p still = p
Served-trans p (step q st) = step (Served-trans p q) st

pushes-Served :
    (a b : List Item) (x : Item) (c : Consumer) (sent : List Item) (d : Bool)
    → Perm b (x ∷ a)
    → Served (view (bag_of a) c sent d) (view (bag_of b) c sent d)
unfolding put
pushes-Served a b x c sent d same =
    Served-by (arrives x) (ap (λ q. view q c sent d) (sym (Quot.sound same)))

takes-Served :
    (a : List Item) (x : Item) (q : Queue) (c : Consumer) (sent : List Item) (d : Bool)
    → c ≡ testing
    → Popped a x q
    → Served (view (bag_of a) c sent d) (view (bag_of q.items) (returned x true) sent d)
unfolding put
takes-Served a x q c sent d e p =
    let top : IsTop x (bag_of a) = (a, refl, λ t m. Outranks-of_Above x t (p.highest t m)) in
    Served-by (takes_out x (bag_of q.items) (ap held e) (ap has_returned e) (Quot.sound p.same) top)
      (ap
        (λ r. record {
          queued = bag_of q.items;
          under_way = some x;
          sent = sent;
          is_done = d;
          returned = r;
        })
        (ap has_returned e))

gives_up-Served :
    (b : Bag) (c : Consumer) (sent : List Item) (d : Bool)
    → c ≡ selecting
    → d ≡ true
    → Served (view b c sent d) (view b (returned zero_item false) sent d)
gives_up-Served b c sent d e done_closed =
    Served-by (stops (ap held e) (ap has_returned e) done_closed) (
      ap (λ o. record { queued = b; under_way = o; sent = sent; is_done = d; returned = true })
        (ap held e))

-- What happens within `Pop`.
pop-Served :
    {s t : State} {e : Event} (sent : List Item)
    → PopStep s e t
    → Inv s
    → Served
        (view (bag_of s.queue.items) s.consumer sent s.is_done)
        (view (bag_of t.queue.items) t.consumer sent t.is_done)
pop-Served {s} sent (pushes {q = q} x p) v =
    pushes-Served s.queue.items q.items x s.consumer sent s.is_done
      (Yields-at (push-Holds s.queue x v.valid) p).1
pop-Served sent closes v = step still ends
pop-Served sent (signals_one n p) v = still
pop-Served {s} sent (takes {x = x} {q = q} e some_item p) v =
    let some_left : 0 < length s.queue.items = grind arith in
    takes-Served s.queue.items x q s.consumer sent s.is_done e
      (Yields-at (pop-Popped s.queue v.valid some_left) p)
pop-Served {s} sent (launches e none_left) v =
    Served-eq (ap (λ c. view (bag_of s.queue.items) c sent s.is_done) e)
pop-Served sent (parks e) v = still
pop-Served sent (wakes e) v = still
pop-Served {s} sent (resumes e f) v =
    Served-eq (ap (λ c. view (bag_of s.queue.items) c sent s.is_done) e)
pop-Served {s} sent (gives_up e d) v =
    gives_up-Served (bag_of s.queue.items) s.consumer sent s.is_done e d

-- `Publish` has worked, or has failed.
publishes-Served :
    (b : Bag) (x : Item) (c : Consumer) (sent : List Item) (d : Bool)
    → c ≡ returned x true
    → Served (view b c sent d) (view b testing (sent ++ x ∷ []) d)
publishes-Served b x c sent d e = Served-by (sends x (ap held e)) (
    ap
      (λ r. record {
        queued = b;
        under_way = none;
        sent = sent ++ x ∷ [];
        is_done = d;
        returned = r;
      })
      (ap has_returned e))

fails-Served :
    (a b : List Item) (x : Item) (c : Consumer) (sent : List Item) (d : Bool)
    → c ≡ returned x true
    → Perm b (x ∷ a)
    → Served (view (bag_of a) c sent d) (view (bag_of b) testing sent d)
unfolding put
fails-Served a b x c sent d e same =
    Served-trans
      (Served-by (puts_back x (ap held e)) (
        ap
          (λ r. record {
            queued = bag_of (x ∷ a);
            under_way = none;
            sent = sent;
            is_done = d;
            returned = r;
          })
          (ap has_returned e)))
      (Served-eq (ap (λ q. view q testing sent d) (sym (Quot.sound same))))

testing-Inv :
    (s : State) (q : Queue) (h : Helper)
    → IsValid q
    → Inv (record s { queue = q; consumer = testing; helper = h })
testing-Inv s q h v = record { valid = v; helped = λ e. absurd (ground arith); refused = λ x e. cc }

pub Step-Served :
    {s t : Loop} → Step s t → Inv s.pop → Inv t.pop × Served (service_of s) (service_of t)
Step-Served {s} (pops e p) v = (PopStep-Inv p v, pop-Served s.published p v)
Step-Served {s} (publishes x e) v = (
  testing-Inv s.pop s.pop.queue s.pop.helper v.valid,
  publishes-Served (bag_of s.pop.queue.items) x s.pop.consumer s.published s.pop.is_done e,
)
Step-Served {s} (fails x {q = q} e p) v =
    let (w, same) = Yields-at (push-Holds s.pop.queue x v.valid) p in
    (
      testing-Inv s.pop q (wake_up s.pop.helper) w,
      fails-Served s.pop.queue.items q.items x s.pop.consumer s.published s.pop.is_done e same,
    )

pub Reach-Served :
    {s t : Loop} → Inv s.pop → Reach s t → Inv t.pop × Served (service_of s) (service_of t)
Reach-Served v here = (v, still)
Reach-Served v (next r st) =
    let (w, before) = Reach-Served v r in
    let (u, last) = Step-Served st w in (u, Served-trans before last)

-- Whatever pushers, the context and NATS do, in any order: on a valid queue `drainQueue` is a service on
-- the bag of the queued items. It takes out one item at a time, one that outranks all that are queued, and
-- sends it or, if `Publish` fails, puts it back; and it returns only after the end of the context, with no
-- item under way.
pub drain-Served :
    (q : Queue) (s : Loop)
    → IsValid q
    → Reach (start q) s
    → Served (service_of (start q)) (service_of s)
drain-Served q s v r = (Reach-Served (calling-Inv q v) r).1
