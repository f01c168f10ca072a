-- ===== src/Examples/Slices.antt =====
-- The dead letter queue on shared arrays.
use rdispatch.Common.{◌≡◌, refl, List, [], ◌∷◌, done, ◌>>=◌, Yields, arith, map}
use rdispatch.Common.Int.{pos}
use rdispatch.Dlq.Memory.{stamp}
use rdispatch.Dlq.Slices.{
  Store, array_at, contents, zeros, new_memory, push, messages, drain, append, allocate, make, copy,
  smaller, drop_oldest, from_one,
}
use rdispatch.Dlq.Slices.Push.{Owns, memory_at}
use rdispatch.Dlq.Slices.Refines.{Call, pushes, reads, drains, run, Refines, run-Refines}
use rdispatch.Examples.Letters.{first_letter, second_letter}

-- A copy is taken before the third message overwrites the array, which is drained at the end.
abbrev script : List Call
script =
    pushes 7 first_letter ∷ pushes 8 second_letter ∷ reads ∷ pushes 9 second_letter ∷ drains ∷ []

-- What the two slices read in the end.
handed_out :
    (new_memory (pos 2) [] >>= λ (m, st).
    run 0 script m st >>= λ (ss, m', t). done (map (contents t) ss))
    ≡ done (
        (first_letter ∷ stamp 8 second_letter ∷ [])
        ∷ (stamp 8 second_letter ∷ stamp 9 second_letter ∷ [])
        ∷ [])
unfolding run push messages drain append allocate make copy smaller drop_oldest from_one contents
    array_at zeros new_memory stamp
handed_out = refl

abbrev empty_store : Store
empty_store = zeros 2 ∷ []

two_places-Owns : Owns 2 empty_store (memory_at 2 0 0)
unfolding array_at zeros
two_places-Owns = record {
  capacity = refl;
  start = refl;
  placed = omega arith;
  sized = refl;
  bounded = omega arith;
}

run-Refines_example :
    Yields
      (λ (ss, m', t). Refines 2 script (memory_at 2 0 0) empty_store ss m' t)
      (run 0 script (memory_at 2 0 0) empty_store)
run-Refines_example =
    run-Refines 0 2 script (memory_at 2 0 0) empty_store (omega arith) two_places-Owns
