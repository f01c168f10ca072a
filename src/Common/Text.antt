-- ===== src/Common/Text.antt =====
-- Texts: joining, decimal and hexadecimal numerals, and UTF-8.
use Prim.Native.Nat.{ℕ, zero, suc, ◌+◌, ◌/◌, ◌%◌}
use Prim.Native.Char.{code}
use Prim.Native.String.{String, ◌++◌ as join}
use mathlib.Core.List.{List, [], ◌∷◌, ◌++◌}
use rdispatch.Common.Tests.{ltb, if◌then◌else◌}
use rdispatch.Common.Array.{get_or}
use rdispatch.Common.Int.{ℤ, pos, negsuc}

-- The parts of a text, joined: what `Sprintf` makes of a format with its `%s` filled in.
unfoldable pub concat : List String → String
concat [] = ""
concat (s ∷ ss) = join s (concat ss)

abbrev digits : List String
digits =
    "0" ∷ "1" ∷ "2" ∷ "3" ∷ "4" ∷ "5" ∷ "6" ∷ "7" ∷ "8" ∷ "9" ∷ "a" ∷ "b" ∷ "c" ∷ "d" ∷ "e" ∷ "f"
    ∷ []

unfoldable pub digit : ℕ → String
unfolding get_or
digit d = get_or digits d "f"

-- The decimal numeral of `n`, with one round of fuel for each digit.
unfoldable pub decimal_from : ℕ → ℕ → String
unfolding digit
decimal_from zero n = ""
decimal_from (suc fuel) n =
    let front = decimal_from fuel (n / 10) in
    if ltb n 10 then digit n else join front (digit (n % 10))

unfoldable pub decimal_nat : ℕ → String
unfolding decimal_from
decimal_nat n = decimal_from (suc n) n

-- `%d`.
unfoldable pub decimal : ℤ → String
unfolding decimal_nat
decimal (pos n) = decimal_nat n
decimal (negsuc n) = join "-" (decimal_nat (n + 1))

-- `hex.EncodeToString`.
unfoldable pub hex : List ℕ → String
unfolding digit
hex [] = ""
hex (b ∷ bs) = join (digit (b / 16)) (join (digit (b % 16)) (hex bs))

-- The bytes of a code point in UTF-8.
unfoldable pub utf8_char : ℕ → List ℕ
utf8_char c =
    if ltb c 128
    then c ∷ []
    else if ltb c 2048
    then (192 + c / 64) ∷ (128 + c % 64) ∷ []
    else if ltb c 65536
    then (224 + c / 4096) ∷ (128 + c / 64 % 64) ∷ (128 + c % 64) ∷ []
    else (240 + c / 262144) ∷ (128 + c / 4096 % 64) ∷ (128 + c / 64 % 64) ∷ (128 + c % 64) ∷ []

-- `[]byte(s)`.
unfoldable pub bytes : String → List ℕ
unfolding utf8_char
bytes String.[] = []
bytes (String.◌∷◌ c s) = utf8_char (code c) ++ bytes s
