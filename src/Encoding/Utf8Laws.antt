-- ===== src/Encoding/Utf8Laws.antt =====
-- Decoding gives back the code points that were encoded.
use rdispatch.Common.{
  ℕ, zero, suc, ◌+◌, ◌*◌, ◌/◌, ◌%◌, ◌<◌, ◌≤◌, ◌≡◌, refl, ap, ◌∙◌, true, false, List, [], ◌∷◌, ◌++◌,
  ltb, ◌==◌, length, length-append, arith, Bool-cases, inl, inr, All,
}
use rdispatch.Common.Text.{utf8_char}
use rdispatch.Encoding.Scalar.{InRange}
use rdispatch.Encoding.Utf8.{
  is_tail, decode_two, decode_three, decode_four, decode_rune, decode_from, decode,
}

-- Code points as bytes.
unfoldable pub encode : List ℕ → List ℕ
encode [] = []
encode (c ∷ cs) = utf8_char c ++ encode cs

-- What is decoded first, and what is left.
abbrev Starts : List ℕ → ℕ → List ℕ → Type 0
Starts bs c rest = (b : ℕ) × (more : List ℕ) × (bs ≡ b ∷ more) × (decode_rune b more ≡ (c, rest))

one : (c : ℕ) (rest : List ℕ) → c < 128 → Starts (utf8_char c ++ rest) c rest
unfolding utf8_char decode_rune
one c rest h =
    let small : ltb c 128 ≡ true = ground arith in rw small (c, rest, refl, rw small refl)

two : (c : ℕ) (rest : List ℕ) → 128 ≤ c → c < 2048 → Starts (utf8_char c ++ rest) c rest
unfolding utf8_char decode_rune decode_two is_tail
two c rest l h =
    let a1 : ltb c 128 ≡ false = ground arith in
    let a2 : ltb c 2048 ≡ true = ground arith in
    let b1 : ltb (192 + c / 64) 128 ≡ false = ground arith in
    let b2 : ltb (192 + c / 64) 194 ≡ false = ground arith in
    let b3 : ltb (192 + c / 64) 224 ≡ true = ground arith in
    let t : ((128 + c % 64) / 64 == 2) ≡ true = ground arith in
    let v : ((192 + c / 64) % 32) * 64 + (128 + c % 64) % 64 ≡ c = omega arith in
    rw (a1, a2) (192 + c / 64, (128 + c % 64) ∷ rest, refl, rw (b1, b2, b3, t, v) refl)

three :
    (c : ℕ) (rest : List ℕ)
    → 2048 ≤ c
    → c < 65536
    → (c / 2048 == 27) ≡ false
    → Starts (utf8_char c ++ rest) c rest
unfolding utf8_char decode_rune decode_three is_tail
three c rest l h s =
    let a1 : ltb c 128 ≡ false = ground arith in
    let a2 : ltb c 2048 ≡ false = ground arith in
    let a3 : ltb c 65536 ≡ true = ground arith in
    let b1 : ltb (224 + c / 4096) 128 ≡ false = ground arith in
    let b2 : ltb (224 + c / 4096) 194 ≡ false = ground arith in
    let b3 : ltb (224 + c / 4096) 224 ≡ false = ground arith in
    let b4 : ltb (224 + c / 4096) 240 ≡ true = ground arith in
    let t : ((128 + c / 64 % 64) / 64 == 2) ≡ true = ground arith in
    let u : ((128 + c % 64) / 64 == 2) ≡ true = ground arith in
    let v : ((224 + c / 4096) % 16) * 4096 + ((128 + c / 64 % 64) % 64) * 64 + (128 + c % 64) % 64
        ≡ c =
      omega arith in
    rw (a1, a2, a3)
      (
        224 + c / 4096,
        (128 + c / 64 % 64) ∷ (128 + c % 64) ∷ rest,
        refl,
        rw (b1, b2, b3, b4, t, u, v, a2, s) refl,
      )

four : (c : ℕ) (rest : List ℕ) → 65536 ≤ c → c < 1114112 → Starts (utf8_char c ++ rest) c rest
unfolding utf8_char decode_rune decode_four is_tail
four c rest l h =
    let a1 : ltb c 128 ≡ false = ground arith in
    let a2 : ltb c 2048 ≡ false = ground arith in
    let a3 : ltb c 65536 ≡ false = ground arith in
    let a4 : ltb c 1114112 ≡ true = ground arith in
    let b1 : ltb (240 + c / 262144) 128 ≡ false = ground arith in
    let b2 : ltb (240 + c / 262144) 194 ≡ false = ground arith in
    let b3 : ltb (240 + c / 262144) 224 ≡ false = ground arith in
    let b4 : ltb (240 + c / 262144) 240 ≡ false = ground arith in
    let b5 : ltb (240 + c / 262144) 245 ≡ true = ground arith in
    let t : ((128 + c / 4096 % 64) / 64 == 2) ≡ true = ground arith in
    let u : ((128 + c / 64 % 64) / 64 == 2) ≡ true = ground arith in
    let w : ((128 + c % 64) / 64 == 2) ≡ true = ground arith in
    let v : ((240 + c / 262144) % 8) * 262144
          + ((128 + c / 4096 % 64) % 64) * 4096
          + ((128 + c / 64 % 64) % 64) * 64
          + (128 + c % 64) % 64
        ≡ c =
      omega arith in
    rw (a1, a2, a3)
      (
        240 + c / 262144,
        (128 + c / 4096 % 64) ∷ (128 + c / 64 % 64) ∷ (128 + c % 64) ∷ rest,
        refl,
        rw (b1, b2, b3, b4, b5, t, u, w, v, a3, a4) refl,
      )

starts : (c : ℕ) (rest : List ℕ) → InRange c → Starts (utf8_char c ++ rest) c rest
starts c rest r = elim (Bool-cases (ltb c 128)) [
  | inl e ↦ one c rest (ground arith)
  | inr e ↦ elim (Bool-cases (ltb c 2048)) [
    | inl f ↦ two c rest (ground arith) (ground arith)
    | inr f ↦ elim (Bool-cases (ltb c 65536)) [
      | inl g ↦ three c rest (ground arith) (ground arith) (ground arith)
      | inr g ↦ four c rest (ground arith) (ground arith)
    ]
  ]
]

decode_step :
    (fuel c : ℕ) (bs rest : List ℕ)
    → Starts bs c rest
    → decode_from (suc fuel) bs ≡ c ∷ decode_from fuel rest
unfolding decode_from
decode_step fuel c bs rest (b, more, e, d) = rw (e, decode_from, d) refl

decode_from_nil : (fuel : ℕ) → decode_from fuel [] ≡ []
unfolding decode_from
decode_from_nil zero = refl
decode_from_nil (suc fuel) = refl

decode_from-encode :
    (cs : List ℕ) (fuel : ℕ) → All InRange cs → length cs ≤ fuel → decode_from fuel (encode cs) ≡ cs
unfolding encode
decode_from-encode [] fuel a h = decode_from_nil fuel
decode_from-encode (c ∷ cs) zero a h = absurd (omega arith)
decode_from-encode (c ∷ cs) (suc fuel) (r, a) h =
    decode_step fuel c (utf8_char c ++ encode cs) (encode cs) (starts c (encode cs) r)
    ∙ ap (◌∷◌ c) (decode_from-encode cs fuel a (omega arith))

length-encode : (cs : List ℕ) → All InRange cs → length cs ≤ length (encode cs)
unfolding encode
length-encode [] a = omega arith
length-encode (c ∷ cs) (r, a) =
    let (b, more, e, d) = starts c [] r in
    omega (
      arith,
      ap length e,
      length-append (utf8_char c) [],
      length-append (utf8_char c) (encode cs),
      length-encode cs a,
    )

-- The bytes of code points decode to them.
pub decode-encode : (cs : List ℕ) → All InRange cs → decode (encode cs) ≡ cs
unfolding decode
decode-encode cs a = decode_from-encode cs (length (encode cs)) a (length-encode cs a)
