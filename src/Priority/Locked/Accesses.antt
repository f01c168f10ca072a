-- ===== src/Priority/Locked/Accesses.antt =====
-- The accesses that the loops of `Queue` make, made whole.
use rdispatch.Common.{
  ℕ, zero, suc, ◌+◌, ◌-◌, ◌*◌, ◌/◌, ◌≡◌, refl, sym, ◌∙◌, Bool, true, false, Option, none, some,
  List, Run, done, panic, out_of_fuel, ◌>>=◌, or_panic, length, get_elem?, set, ltb, ◌==◌,
  if◌then◌else◌, Bool-cases, inl, inr,
}
use rdispatch.Priority.Item.{Item, lower}
use rdispatch.Priority.Queue.{less, exchange, sift_up_loop, better, sift_down_loop}
use rdispatch.Mutex.Program.{reads, writes, fetch, perform}
use rdispatch.Priority.Locked.{
  Body, load_at, store_at, less_at, exchange_at, sift_up_at, better_at, sift_down_at,
}

module _ (a : List Item) where
  fetch_then :
      (o : Option Item) (k : Item → Body)
      → perform (fetch o k) a ≡ (or_panic o >>= λ x. perform (k x) a)
  unfolding perform
  fetch_then none k = refl
  fetch_then (some x) k = refl

  pub two_fetches :
      (o p : Option Item) (k : Item → Item → Body)
      → perform (fetch o (λ x. fetch p (k x))) a
        ≡ (or_panic o >>= λ x. or_panic p >>= λ y. perform (k x y) a)
  unfolding perform
  two_fetches none p k = refl
  two_fetches (some x) none k = refl
  two_fetches (some x) (some y) k = refl

pub bind_assoc {ℓ κ μ} :
    {A : Type ℓ} {B : Type κ} {C : Type μ} (r : Run A) (f : A → Run B) (g : B → Run C)
    → ((r >>= f) >>= g) ≡ (r >>= λ x. f x >>= g)
bind_assoc (done x) f g = refl
bind_assoc panic f g = refl
bind_assoc out_of_fuel f g = refl

less_then :
    (o p : Option Item) (k : Bool → Body) (a : List Item)
    → (or_panic o >>= λ x. or_panic p >>= λ y. perform (k (lower x y)) a) ≡ (
        (or_panic o >>= λ x. or_panic p >>= λ y. done (lower x y)) >>= λ below. perform (k below) a)
less_then none p k a = refl
less_then (some x) none k a = refl
less_then (some x) (some y) k a = refl

exchange_then :
    (o p : Option Item) (i j : ℕ) (k : Body) (a : List Item)
    → (or_panic o >>= λ y. or_panic p >>= λ x. perform k (set (set a i y) j x))
      ≡ ((or_panic o >>= λ y. or_panic p >>= λ x. done (set (set a i y) j x)) >>= λ b. perform k b)
exchange_then none p i j k a = refl
exchange_then (some x) none i j k a = refl
exchange_then (some x) (some y) i j k a = refl

pub read_between :
    (o : Option Item) (j : ℕ) (k : Item → Item → Body) (a : List Item)
    → perform (fetch o (λ x. reads λ b. fetch (get_elem? b j) (k x))) a
      ≡ perform (fetch o (λ x. fetch (get_elem? a j) (k x))) a
unfolding perform
read_between none j k a = refl
read_between (some x) j k a = refl

perform-less_at :
    (i j : ℕ) (k : Bool → Body) (a : List Item)
    → perform (less_at i j k) a ≡ (less a i j >>= λ below. perform (k below) a)
unfolding perform less_at load_at less
perform-less_at i j k a =
    read_between (get_elem? a i) j (λ x y. k (lower x y)) a
    ∙ two_fetches a (get_elem? a i) (get_elem? a j) (λ x y. k (lower x y))
    ∙ less_then (get_elem? a i) (get_elem? a j) k a

perform-exchange_at :
    (i j : ℕ) (k : Body) (a : List Item)
    → perform (exchange_at i j k) a ≡ (exchange a i j >>= λ b. perform k b)
unfolding perform exchange_at load_at store_at exchange
perform-exchange_at i j k a =
    let stores =
      λ (y x : Item). reads (λ b. writes (set b i y) (reads λ c. writes (set c j x) k)) in
    read_between (get_elem? a j) i stores a
    ∙ two_fetches a (get_elem? a j) (get_elem? a i) stores
    ∙ exchange_then (get_elem? a j) (get_elem? a i) i j k a

-- Calls that go on alike, whatever they are given.
alike : {A B : Type 0} (r : Run A) (f g : A → Run B) → ((x : A) → f x ≡ g x) → (r >>= f) ≡ (r >>= g)
alike (done x) f g h = h x
alike panic f g h = refl
alike out_of_fuel f g h = refl

pub perform-sift_up_at :
    (fuel i : ℕ) (k : Body) (a : List Item)
    → perform (sift_up_at fuel i k) a ≡ (sift_up_loop fuel a i >>= λ b. perform k b)
unfolding sift_up_at sift_up_loop perform
perform-sift_up_at zero i k a = refl
perform-sift_up_at (suc fuel) i k a =
    let parent : ℕ = (i - 1) / 2 in
    let rise = exchange_at i parent (sift_up_at fuel parent k) in
    let rest = λ (below : Bool).
      if below then (exchange a i parent >>= λ b. sift_up_loop fuel b parent) else done a in
    let risen =
      perform-exchange_at i parent (sift_up_at fuel parent k) a
      ∙ alike (exchange a i parent) _ _ (λ b. perform-sift_up_at fuel parent k b)
      ∙ sym
          (bind_assoc (exchange a i parent) (λ b. sift_up_loop fuel b parent) (λ b. perform k b)) in
    elim (Bool-cases (ltb 0 i)) [
      | inl e ↦ rw e (
          perform-less_at parent i (λ below. if below then rise else k) a
          ∙ alike (less a parent i) _ (λ below. rest below >>= λ b. perform k b)
              (λ below.
                elim below
                  as (λ b. perform (if b then rise else k) a ≡ (rest b >>= λ c. perform k c)) [
                    | true ↦ risen
                    | false ↦ refl
                  ])
          ∙ sym (bind_assoc (less a parent i) rest (λ b. perform k b)))
      | inr e ↦ rw e refl
    ]

perform-better_at :
    (best child : ℕ) (k : ℕ → Body) (a : List Item)
    → perform (better_at best child k) a ≡ (better a best child >>= λ m. perform (k m) a)
unfolding better_at better perform
perform-better_at best child k a =
    let winner = λ (below : Bool). if below then child else best in
    elim (ltb child (length a))
      as (λ b. perform (if b then less_at best child (λ below. k (winner below)) else k best) a ≡ (
        (if b then (less a best child >>= λ below. done (winner below)) else done best) >>= λ m.
        perform (k m) a)) [
          | true ↦
              perform-less_at best child (λ below. k (winner below)) a
              ∙ sym (
                  bind_assoc (less a best child) (λ below. done (winner below))
                    (λ m. perform (k m) a))
          | false ↦ refl
        ]

pub perform-sift_down_at :
    (fuel i : ℕ) (k : Body) (a : List Item)
    → perform (sift_down_at fuel i k) a ≡ (sift_down_loop fuel a i >>= λ b. perform k b)
unfolding sift_down_at sift_down_loop perform
perform-sift_down_at zero i k a = refl
perform-sift_down_at (suc fuel) i k a =
    let sink = λ (best : ℕ). exchange a i best >>= λ b. sift_down_loop fuel b best in
    let turn = λ (best : ℕ). if best == i then done a else sink best in
    let next =
      λ (best : ℕ). if best == i then k else exchange_at i best (sift_down_at fuel best k) in
    let sunk = λ (best : ℕ).
      perform-exchange_at i best (sift_down_at fuel best k) a
      ∙ alike (exchange a i best) _ _ (λ b. perform-sift_down_at fuel best k b)
      ∙ sym (bind_assoc (exchange a i best) (λ b. sift_down_loop fuel b best) (λ b. perform k b)) in
    let turned = λ (best : ℕ).
      elim (best == i)
        as (λ b.
          perform (if b then k else exchange_at i best (sift_down_at fuel best k)) a
          ≡ ((if b then done a else sink best) >>= λ c. perform k c)) [
            | true ↦ refl
            | false ↦ sunk best
          ] in
    let second = λ (with_left : ℕ).
      perform-better_at with_left (2 * i + 2) next a
      ∙ alike (better a with_left (2 * i + 2)) _ _ turned
      ∙ sym (bind_assoc (better a with_left (2 * i + 2)) turn (λ b. perform k b)) in
    perform-better_at i (2 * i + 1) (λ with_left. better_at with_left (2 * i + 2) next) a
    ∙ alike (better a i (2 * i + 1)) _ _ second
    ∙ sym (
        bind_assoc (better a i (2 * i + 1)) (λ with_left. better a with_left (2 * i + 2) >>= turn)
          (λ b. perform k b))
