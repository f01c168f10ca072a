-- ===== src/Encoding/Read.antt =====
-- Reading texts: white space, and the escapes within quotes.
use Prim.Native.Char.{char, IsScalar}
use rdispatch.Common.{
  ℕ, zero, suc, ◌+◌, ◌-◌, ◌*◌, ◌/◌, String, Bool, Option, none, some, List, [], ◌∷◌, ltb, ◌==◌,
  ◌&&◌, ◌||◌, if◌then◌else◌,
}
use rdispatch.Encoding.Scalar.{as_scalar}

unfoldable pub is_space : ℕ → Bool
is_space c = c == 32 || c == 9 || c == 10 || c == 13

unfoldable pub skip : List ℕ → List ℕ
skip [] = []
skip (c ∷ cs) = let rest = skip cs in if is_space c then rest else c ∷ cs

unfoldable pub unhex : ℕ → Option ℕ
unhex c =
    if ltb 47 c && ltb c 58
    then some (c - 48)
    else if ltb 96 c && ltb c 103
    then some (c - 87)
    else if ltb 64 c && ltb c 71
    then some (c - 55)
    else none

unfoldable pub join_hex : Option ℕ → Option ℕ → Option ℕ → Option ℕ → Option ℕ
join_hex (some a) (some b) (some c) (some d) = some (((a * 16 + b) * 16 + c) * 16 + d)
join_hex a b c d = none

unfoldable pub before : List ℕ → Option ℕ → Option (ℕ × List ℕ)
before rest none = none
before rest (some v) = some (v, rest)

-- Four hexadecimal digits.
unfoldable pub read_four : List ℕ → Option (ℕ × List ℕ)
read_four (a ∷ b ∷ c ∷ d ∷ rest) = before rest (join_hex (unhex a) (unhex b) (unhex c) (unhex d))
read_four cs = none

-- The second half of a surrogate pair; half a pair is U+FFFD.
unfoldable pub low_half : ℕ → List ℕ → Option (ℕ × List ℕ) → ℕ × List ℕ
low_half v rest none = (65533, rest)
low_half v rest (some (w, more)) =
    if w / 1024 == 55 then (65536 + (v - 55296) * 1024 + (w - 56320), more) else (65533, rest)

unfoldable pub read_low : ℕ → List ℕ → ℕ × List ℕ
read_low v (a ∷ b ∷ rest) =
    if a == 92 && b == 117
    then low_half v (a ∷ b ∷ rest) (read_four rest)
    else (65533, a ∷ b ∷ rest)
read_low v rest = (65533, rest)

unfoldable pub pair_up : Option (ℕ × List ℕ) → Option (ℕ × List ℕ)
pair_up none = none
pair_up (some (v, rest)) =
    if v / 1024 == 54
    then some (read_low v rest)
    else if v / 1024 == 55
    then some (65533, rest)
    else some (v, rest)

-- What follows a backslash.
unfoldable pub read_escape : List ℕ → Option (ℕ × List ℕ)
read_escape [] = none
read_escape (e ∷ rest) =
    if e == 34 || e == 92 || e == 47
    then some (e, rest)
    else if e == 98
    then some (8, rest)
    else if e == 102
    then some (12, rest)
    else if e == 110
    then some (10, rest)
    else if e == 114
    then some (13, rest)
    else if e == 116
    then some (9, rest)
    else if e == 117
    then pair_up (read_four rest)
    else none

-- What a text goes on with: its closing quote, or a character.
pub data Piece : Type 0 where
  closes : List ℕ → Piece
  goes_on : ℕ → List ℕ → Piece
  bad : Piece

unfoldable pub escaped : Option (ℕ × List ℕ) → Piece
escaped none = bad
escaped (some (c, rest)) = goes_on c rest

unfoldable pub read_piece : List ℕ → Piece
read_piece [] = bad
read_piece (c ∷ rest) =
    if c == 34
    then closes rest
    else if c == 92
    then escaped (read_escape rest)
    else if ltb c 32
    then bad
    else goes_on c rest

abbrev pub put_rune :
    (c : ℕ) → Option (IsScalar c) → Option (String × List ℕ) → Option (String × List ℕ)
put_rune c (some p) (some (s, rest)) = some (String.◌∷◌ (char c p) s, rest)
put_rune c p r = none

abbrev pub after_piece : Piece → (List ℕ → Option (String × List ℕ)) → Option (String × List ℕ)
after_piece (closes rest) more = some ("", rest)
after_piece (goes_on c rest) more = put_rune c (as_scalar c) (more rest)
after_piece bad more = none

-- A text after its opening quote.
unfoldable pub read_runes : ℕ → List ℕ → Option (String × List ℕ)
read_runes zero cs = none
read_runes (suc fuel) cs = after_piece (read_piece cs) (read_runes fuel)
