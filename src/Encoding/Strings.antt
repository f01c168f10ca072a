-- ===== src/Encoding/Strings.antt =====
-- Reading a text that was written.
use Prim.Native.Char.{char}
use rdispatch.Common.{
  ℕ, zero, suc, ◌/◌, ◌%◌, ◌<◌, ◌≡◌, refl, ap, ◌∙◌, String, true, false, some, List, ◌∷◌, ◌++◌, ltb,
  ◌==◌, length, arith, Bool-cases, inl, inr,
}
use rdispatch.Encoding.Scalar.{as_scalar_lem}
use rdispatch.Encoding.Write.{codes, hex_digit, write_hex, is_hidden, write_rune, write_runes}
use rdispatch.Encoding.Read.{
  unhex, join_hex, before, read_four, pair_up, read_escape, goes_on, escaped, read_piece,
  after_piece, read_runes,
}

unhex-hex_digit : (d : ℕ) → d < 16 → unhex (hex_digit d) ≡ some d
unfolding unhex hex_digit
unhex-hex_digit d h = ground arith

read_four_lem :
    (c : ℕ) (rest : List ℕ)
    → c < 65536
    → read_four (
        hex_digit (c / 4096 % 16)
        ∷ hex_digit (c / 256 % 16)
        ∷ hex_digit (c / 16 % 16)
        ∷ hex_digit (c % 16)
        ∷ rest)
      ≡ some (c, rest)
unfolding read_four before join_hex
read_four_lem c rest h =
    rw
      (
        unhex-hex_digit (c / 4096 % 16) (omega arith),
        unhex-hex_digit (c / 256 % 16) (omega arith),
        unhex-hex_digit (c / 16 % 16) (omega arith),
        unhex-hex_digit (c % 16) (omega arith),
      )
      (ap (λ v. some (v, rest)) (omega arith))

no_pair : (c : ℕ) (rest : List ℕ) → c < 55296 → pair_up (some (c, rest)) ≡ some (c, rest)
unfolding pair_up
no_pair c rest h =
    let a : (c / 1024 == 54) ≡ false = ground arith in
    let b : (c / 1024 == 55) ≡ false = ground arith in rw (a, b) refl

read_hex : (c : ℕ) (rest : List ℕ) → c < 55296 → read_piece (write_hex c ++ rest) ≡ goes_on c rest
unfolding read_piece write_hex read_escape escaped
read_hex c rest h =
    ap (λ x. escaped (pair_up x)) (read_four_lem c rest (omega arith))
    ∙ ap escaped (no_pair c rest h)

hidden_low : (c : ℕ) → is_hidden c ≡ true → c < 55296
unfolding is_hidden
hidden_low c h = ground arith

shown : (c : ℕ) → is_hidden c ≡ false → ltb c 32 ≡ false
unfolding is_hidden
shown c h = ground arith

-- Every character that is written is read, with what follows it.
pub read_piece-write_rune :
    (c : ℕ) (rest : List ℕ) → read_piece (write_rune c ++ rest) ≡ goes_on c rest
unfolding read_piece write_rune read_escape escaped
read_piece-write_rune c rest = elim (Bool-cases (c == 34)) [
  | inl e ↦ let same : c ≡ 34 = ground arith in rw same refl
  | inr n1 ↦ elim (Bool-cases (c == 92)) [
    | inl e ↦ let same : c ≡ 92 = ground arith in rw same refl
    | inr n2 ↦ elim (Bool-cases (c == 8)) [
      | inl e ↦ let same : c ≡ 8 = ground arith in rw same refl
      | inr n3 ↦ elim (Bool-cases (c == 12)) [
        | inl e ↦ let same : c ≡ 12 = ground arith in rw same refl
        | inr n4 ↦ elim (Bool-cases (c == 10)) [
          | inl e ↦ let same : c ≡ 10 = ground arith in rw same refl
          | inr n5 ↦ elim (Bool-cases (c == 13)) [
            | inl e ↦ let same : c ≡ 13 = ground arith in rw same refl
            | inr n6 ↦ elim (Bool-cases (c == 9)) [
              | inl e ↦ let same : c ≡ 9 = ground arith in rw same refl
              | inr n7 ↦ elim (Bool-cases (is_hidden c)) [
                | inl e ↦ rw (n1, n2, n3, n4, n5, n6, n7, e) (read_hex c rest (hidden_low c e))
                | inr n8 ↦
                    let m : ltb c 32 ≡ false = shown c n8 in
                    rw (n1, n2, n3, n4, n5, n6, n7, n8) (rw (n1, n2, m) refl)
              ]
            ]
          ]
        ]
      ]
    ]
  ]
]

pub read_runes-write_runes :
    (s : String) (fuel : ℕ) (rest : List ℕ)
    → length (codes s) < fuel
    → read_runes fuel (write_runes (codes s) rest) ≡ some (s, rest)
unfolding read_runes write_runes codes read_piece
read_runes-write_runes s zero rest h = absurd (omega arith)
read_runes-write_runes String.[] (suc fuel) rest h = refl
read_runes-write_runes (String.◌∷◌ (char c p) s) (suc fuel) rest h =
    ap (λ x. after_piece x (read_runes fuel)) (read_piece-write_rune c (write_runes (codes s) rest))
    ∙ rw (as_scalar_lem c p, read_runes-write_runes s fuel rest (omega arith)) refl
