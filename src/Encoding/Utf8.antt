-- ===== src/Encoding/Utf8.antt =====
-- Decoding UTF-8 as Go does: each byte of an invalid sequence becomes U+FFFD.
use rdispatch.Common.{
  ℕ, suc, ◌+◌, ◌*◌, ◌/◌, ◌%◌, Bool, List, [], ◌∷◌, ◌&&◌, not, ltb, ◌==◌, if◌then◌else◌, length,
}

-- `utf8.RuneError`.
abbrev pub rune_error : ℕ
rune_error = 65533

-- A continuation byte.
unfoldable pub is_tail : ℕ → Bool
is_tail b = b / 64 == 2

unfoldable pub decode_two : ℕ → List ℕ → ℕ × List ℕ
decode_two b (c ∷ rest) =
    if is_tail c then ((b % 32) * 64 + c % 64, rest) else (rune_error, c ∷ rest)
decode_two b rest = (rune_error, rest)

unfoldable pub decode_three : ℕ → List ℕ → ℕ × List ℕ
decode_three b (c ∷ d ∷ rest) =
    let r = (b % 16) * 4096 + (c % 64) * 64 + d % 64 in
    if is_tail c && is_tail d && not (ltb r 2048) && not (r / 2048 == 27)
    then (r, rest)
    else (rune_error, c ∷ d ∷ rest)
decode_three b rest = (rune_error, rest)

unfoldable pub decode_four : ℕ → List ℕ → ℕ × List ℕ
decode_four b (c ∷ d ∷ e ∷ rest) =
    let r = (b % 8) * 262144 + (c % 64) * 4096 + (d % 64) * 64 + e % 64 in
    if is_tail c && is_tail d && is_tail e && not (ltb r 65536) && ltb r 1114112
    then (r, rest)
    else (rune_error, c ∷ d ∷ e ∷ rest)
decode_four b rest = (rune_error, rest)

-- `utf8.DecodeRune` of a byte and those that follow it: the code point and what is left.
unfoldable pub decode_rune : ℕ → List ℕ → ℕ × List ℕ
decode_rune b rest =
    if ltb b 128
    then (b, rest)
    else if ltb b 194
    then (rune_error, rest)
    else if ltb b 224
    then decode_two b rest
    else if ltb b 240
    then decode_three b rest
    else if ltb b 245
    then decode_four b rest
    else (rune_error, rest)

unfoldable pub decode_from : ℕ → List ℕ → List ℕ
decode_from (suc fuel) (b ∷ bs) = let (r, rest) = decode_rune b bs in r ∷ decode_from fuel rest
decode_from fuel bs = []

-- The code points of some bytes; each takes at least one.
unfoldable pub decode : List ℕ → List ℕ
decode bs = decode_from (length bs) bs
