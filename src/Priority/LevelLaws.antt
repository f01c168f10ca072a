-- ===== src/Priority/LevelLaws.antt =====
-- `String` and `ParseLevel` against one another.
use rdispatch.Common.{◌≡◌, ◌⊎◌, zero, suc, refl, inl, inr, arith}
use rdispatch.Common.Int.{pos, negsuc, ◌<ℤ◌, ◌≤ℤ◌}
use rdispatch.Priority.Level.{Level, low, critical, to_string, parse_level}

to_string-unknown : (l : Level) → ((critical <ℤ l) ⊎ (l <ℤ low)) → to_string l ≡ "UNKNOWN"
unfolding to_string
to_string-unknown l h = ground arith

unknown_name :
    (l : Level)
    → ((critical <ℤ l) ⊎ (l <ℤ low))
    → (to_string l ≡ "UNKNOWN") × (parse_level (to_string l) ≡ low)
unfolding parse_level
unknown_name l h = (to_string-unknown l h, rw (to_string-unknown l h))

-- Parsing the name of a level gives the level, if it is one of the four; any other is named
-- "UNKNOWN" and parsed as the lowest.
pub parse_level-to_string :
    (l : Level)
    → ((low ≤ℤ l) × (l ≤ℤ critical) × (parse_level (to_string l) ≡ l))
      ⊎ ((to_string l ≡ "UNKNOWN") × (parse_level (to_string l) ≡ low))
unfolding parse_level to_string
parse_level-to_string (pos zero) = inl (omega arith, omega arith, refl)
parse_level-to_string (pos (suc zero)) = inl (omega arith, omega arith, refl)
parse_level-to_string (pos (suc (suc zero))) = inl (omega arith, omega arith, refl)
parse_level-to_string (pos (suc (suc (suc zero)))) = inl (omega arith, omega arith, refl)
parse_level-to_string (pos (suc (suc (suc (suc n))))) =
    inr (unknown_name (pos (suc (suc (suc (suc n))))) (inl (omega arith)))
parse_level-to_string (negsuc n) = inr (unknown_name (negsuc n) (inr (omega arith)))
