-- ===== src/Dlq/Slices/Arrays.antt =====
-- Reading arrays that were written.
use rdispatch.Common.{
  ℕ, zero, suc, ◌≤◌, ◌<◌, ◌≡◌, ◌≢◌, refl, ap, List, [], ◌∷◌, ◌++◌, length, take, set, get_or,
  get_or-set, get_or-append, arith, ◌==◌, if◌then◌else◌,
}
use rdispatch.Dlq.Memory.{Message}
use rdispatch.Dlq.Slices.{Store, array_at, zeros}

pub length-zeros : (n : ℕ) → length (zeros n) ≡ n
unfolding zeros
length-zeros zero = refl
length-zeros (suc n) = ap suc (length-zeros n)

-- The places up to one that was written.
pub take-set :
    (k : ℕ) (xs : List Message) (v : Message)
    → k < length xs
    → take (suc k) (set xs k v) ≡ take k xs ++ v ∷ []
take-set zero [] v h = absurd (omega arith)
take-set zero (x ∷ xs) v h = refl
take-set (suc k) [] v h = absurd (omega arith)
take-set (suc k) (x ∷ xs) v h = ap (◌∷◌ x) (take-set k xs v (omega arith))

pub array_at-set :
    (st : Store) (a b : ℕ) (xs : List Message)
    → a < length st
    → array_at (set st a xs) b ≡ (if a == b then xs else array_at st b)
unfolding array_at
array_at-set st a b xs h = get_or-set [] st a b xs h

pub array_at-append :
    (st ts : Store) (a : ℕ) → a < length st → array_at (st ++ ts) a ≡ array_at st a
unfolding array_at
array_at-append st ts a h = get_or-append [] st ts a h

pub array_at_last : (st : Store) (xs : List Message) → array_at (st ++ xs ∷ []) (length st) ≡ xs
unfolding array_at get_or
array_at_last [] xs = refl
array_at_last (x ∷ st) xs = array_at_last st xs

pub array_at-set_same :
    (st : Store) (a : ℕ) (xs : List Message) → a < length st → array_at (set st a xs) a ≡ xs
array_at-set_same st a xs h = ground (arith, array_at-set st a a xs h)

pub array_at-set_other :
    (st : Store) (a b : ℕ) (xs : List Message)
    → a < length st
    → b ≢ a
    → array_at (set st a xs) b ≡ array_at st b
array_at-set_other st a b xs h n = ground (arith, array_at-set st a b xs h)

pub length-take : (k : ℕ) (xs : List Message) → k ≤ length xs → length (take k xs) ≡ k
length-take zero xs h = refl
length-take (suc k) [] h = absurd (omega arith)
length-take (suc k) (x ∷ xs) h = ap suc (length-take k xs (omega arith))

pub set-set : (st : Store) (a : ℕ) (xs ys : List Message) → set (set st a xs) a ys ≡ set st a ys
set-set [] a xs ys = refl
set-set (z ∷ st) zero xs ys = refl
set-set (z ∷ st) (suc a) xs ys = ap (◌∷◌ z) (set-set st a xs ys)
