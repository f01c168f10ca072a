-- ===== src/Encoding/Range.antt =====
-- What is written consists of code points.
use Prim.Native.Char.{char}
use rdispatch.Common.{
  ℕ, ◌/◌, ◌%◌, ◌<◌, String, Bool, true, false, List, [], ◌∷◌, ◌++◌, All, ◌==◌, if◌then◌else◌, inl,
  arith,
}
use rdispatch.Common.Json.{
  Json, null, bool, number, text, array, object, Items, no_items, item, Fields, end, field,
}
use rdispatch.Encoding.Scalar.{InRange, InRange-of_IsScalar}
use rdispatch.Encoding.Write.{
  codes, hex_digit, write_hex, is_hidden, write_rune, write_runes, write_text, write_json,
  write_items, write_others, write_fields, write_more,
}

branch_range :
    (b : Bool) (xs ys : List ℕ)
    → All InRange xs
    → All InRange ys
    → All InRange (if b then xs else ys)
branch_range true xs ys x y = x
branch_range false xs ys x y = y

append_range : (xs ys : List ℕ) → All InRange xs → All InRange ys → All InRange (xs ++ ys)
append_range [] ys x y = y
append_range (c ∷ xs) ys (r, x) y = (r, append_range xs ys x y)

digit_range : (d : ℕ) → d < 16 → InRange (hex_digit d)
unfolding hex_digit
digit_range d h = inl (ground arith)

hex_range : (c : ℕ) → All InRange (write_hex c)
unfolding write_hex
hex_range c = (
  inl (omega arith),
  (
    inl (omega arith),
    (
      digit_range (c / 4096 % 16) (omega arith),
      (
        digit_range (c / 256 % 16) (omega arith),
        (digit_range (c / 16 % 16) (omega arith), (digit_range (c % 16) (omega arith), tt)),
      ),
    ),
  ),
)

-- Two characters below the surrogates.
pair_range : (a b : ℕ) → a < 128 → b < 128 → All InRange (a ∷ b ∷ [])
pair_range a b x y = (inl (omega arith), (inl (omega arith), tt))

rune_range : (c : ℕ) → InRange c → All InRange (write_rune c)
unfolding write_rune
rune_range c r = branch_range (c == 34) _ _ (pair_range 92 34 (omega arith) (omega arith)) (
    branch_range (c == 92) _ _ (pair_range 92 92 (omega arith) (omega arith)) (
      branch_range (c == 8) _ _ (pair_range 92 98 (omega arith) (omega arith)) (
        branch_range (c == 12) _ _ (pair_range 92 102 (omega arith) (omega arith)) (
          branch_range (c == 10) _ _ (pair_range 92 110 (omega arith) (omega arith)) (
            branch_range (c == 13) _ _ (pair_range 92 114 (omega arith) (omega arith)) (
              branch_range (c == 9) _ _ (pair_range 92 116 (omega arith) (omega arith))
                (branch_range (is_hidden c) _ _ (hex_range c) (r, tt))))))))

codes_range : (s : String) → All InRange (codes s)
unfolding codes
codes_range String.[] = tt
codes_range (String.◌∷◌ (char c p) s) = (InRange-of_IsScalar c p, codes_range s)

runes_range :
    (cs rest : List ℕ) → All InRange cs → All InRange rest → All InRange (write_runes cs rest)
unfolding write_runes
runes_range [] rest a r = (inl (omega arith), r)
runes_range (c ∷ cs) rest (x, a) r =
    append_range (write_rune c) (write_runes cs rest) (rune_range c x) (runes_range cs rest a r)

text_range : (s : String) (rest : List ℕ) → All InRange rest → All InRange (write_text s rest)
unfolding write_text
text_range s rest r = (inl (omega arith), runes_range (codes s) rest (codes_range s) r)

mutual
  unfolding write_json write_items write_others write_fields write_more

  pub json_range : (v : Json) (rest : List ℕ) → All InRange rest → All InRange (write_json v rest)
  json_range null rest r = append_range (codes "null") rest (codes_range "null") r
  json_range (bool true) rest r = append_range (codes "true") rest (codes_range "true") r
  json_range (bool false) rest r = append_range (codes "false") rest (codes_range "false") r
  json_range (number s) rest r = append_range (codes s) rest (codes_range s) r
  json_range (text s) rest r = text_range s rest r
  json_range (array xs) rest r = (inl (omega arith), items_range xs rest r)
  json_range (object f) rest r = (inl (omega arith), fields_range f rest r)

  items_range : (xs : Items) (rest : List ℕ) → All InRange rest → All InRange (write_items xs rest)
  items_range no_items rest r = (inl (omega arith), r)
  items_range (item v xs) rest r = json_range v (write_others xs rest) (others_range xs rest r)

  others_range :
      (xs : Items) (rest : List ℕ) → All InRange rest → All InRange (write_others xs rest)
  others_range no_items rest r = (inl (omega arith), r)
  others_range (item v xs) rest r =
      (inl (omega arith), json_range v (write_others xs rest) (others_range xs rest r))

  fields_range : (f : Fields) (rest : List ℕ) → All InRange rest → All InRange (write_fields f rest)
  fields_range end rest r = (inl (omega arith), r)
  fields_range (field k v f) rest r =
      text_range k (58 ∷ write_json v (write_more f rest))
        (inl (omega arith), json_range v (write_more f rest) (more_range f rest r))

  more_range : (f : Fields) (rest : List ℕ) → All InRange rest → All InRange (write_more f rest)
  more_range end rest r = (inl (omega arith), r)
  more_range (field k v f) rest r = (
    inl (omega arith),
    text_range k (58 ∷ write_json v (write_more f rest))
        (inl (omega arith), json_range v (write_more f rest) (more_range f rest r)),
  )
