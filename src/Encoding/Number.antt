-- ===== src/Encoding/Number.antt =====
-- The numbers of JSON as they are read.
use rdispatch.Common.{
  ℕ, String, Bool, Option, none, some, List, [], ◌∷◌, ◌++◌, ltb, ◌==◌, ◌&&◌, ◌||◌, if◌then◌else◌,
}
use rdispatch.Common.Json.{Json, number}
use rdispatch.Encoding.Read.{put_rune}
use rdispatch.Encoding.Scalar.{as_scalar}

abbrev pub chain :
    {A B : Type 0} → Option (A × List ℕ) → (A → List ℕ → Option (B × List ℕ)) → Option (B × List ℕ)
chain none f = none
chain (some (a, rest)) f = f a rest

unfoldable pub is_digit : ℕ → Bool
is_digit c = ltb 47 c && ltb c 58

-- The digits in front, and what is left.
unfoldable pub digits : List ℕ → List ℕ × List ℕ
digits [] = ([], [])
digits (c ∷ cs) = let (ds, rest) = digits cs in if is_digit c then (c ∷ ds, rest) else ([], c ∷ cs)

abbrev pub as_text : List ℕ → Option String
as_text [] = some ""
as_text (c ∷ cs) =
    elim (put_rune c (as_scalar c) (elim (as_text cs) [ some s ↦ some (s, []) | none ↦ none ])) [
      | some (s, rest) ↦ some s
      | none ↦ none
    ]

-- At least one digit, after some other characters.
unfoldable pub some_digits : List ℕ → List ℕ × List ℕ → Option (List ℕ × List ℕ)
some_digits front ([], rest) = none
some_digits front (d ∷ ds, rest) = some (front ++ (d ∷ ds), rest)

-- The whole part: no zero before another digit.
unfoldable pub whole : List ℕ → List ℕ → Option (List ℕ × List ℕ)
whole sign [] = none
whole sign (c ∷ cs) =
    if c == 48 then some (sign ++ (c ∷ []), cs) else some_digits sign (digits (c ∷ cs))

unfoldable pub fraction : List ℕ → List ℕ → Option (List ℕ × List ℕ)
fraction front [] = some (front, [])
fraction front (c ∷ cs) =
    if c == 46 then some_digits (front ++ (c ∷ [])) (digits cs) else some (front, c ∷ cs)

unfoldable pub signed : List ℕ → List ℕ → Option (List ℕ × List ℕ)
signed front [] = none
signed front (c ∷ cs) =
    if c == 43 || c == 45
    then some_digits (front ++ (c ∷ [])) (digits cs)
    else some_digits front (digits (c ∷ cs))

unfoldable pub exponent : List ℕ → List ℕ → Option (List ℕ × List ℕ)
exponent front [] = some (front, [])
exponent front (c ∷ cs) =
    if c == 101 || c == 69 then signed (front ++ (c ∷ [])) cs else some (front, c ∷ cs)

unfoldable pub read_number : List ℕ → Option (Json × List ℕ)
read_number [] = none
read_number (c ∷ cs) =
    let start = if c == 45 then whole (c ∷ []) cs else whole [] (c ∷ cs) in
    chain start (λ front rest. chain (fraction front rest) (λ front' rest'.
      chain (exponent front' rest')
        (λ all last. elim (as_text all) [ some s ↦ some (number s, last) | none ↦ none ])))
