-- ===== src/Encoding/ParseLaws.antt =====
-- Reading a map that was written.
use rdispatch.Common.{
  ℕ, zero, suc, ◌+◌, ◌<◌, ◌≤◌, ◌≡◌, refl, sym, subst, ap, String, none, some, List, [], ◌∷◌, ◌++◌,
  length, length-append, arith,
}
use rdispatch.Common.Json.{
  Json, null, bool, number, text, array, object, Fields, end, field, lookup, ok, IsText, Keyed,
  IsPlainValue, IsPlain,
}
use rdispatch.Encoding.Write.{
  codes, write_rune, write_runes, write_text, write_json, write_fields, write_more,
}
use rdispatch.Encoding.Read.{skip, is_space, read_piece, goes_on}
use rdispatch.Encoding.Strings.{read_runes-write_runes, read_piece-write_rune}
use rdispatch.Encoding.Number.{chain}
use rdispatch.Encoding.Parse.{
  read_text, strip, word, token, literal, value_of, unless_set, keep, colon, member, first_member,
  next_member, quoted, members_of, read_json, read_fields, read_more, finish, parse,
}

-- Every character takes at least one code point.
rune_length : (c : ℕ) (xs : List ℕ) → xs ≡ write_rune c → 0 < length xs
unfolding read_piece
rune_length c [] e =
    let read =
      subst (λ ys. read_piece (ys ++ []) ≡ goes_on c []) (sym e) (read_piece-write_rune c []) in
    absurd cc
rune_length c (x ∷ xs) e = omega arith

runes_length : (cs rest : List ℕ) → length cs + suc (length rest) ≤ length (write_runes cs rest)
unfolding write_runes
runes_length [] rest = omega arith
runes_length (c ∷ cs) rest = omega (
  arith,
  length-append (write_rune c) (write_runes cs rest),
  rune_length c (write_rune c) refl,
  runes_length cs rest,
)

read_text-write_runes :
    (s : String) (rest : List ℕ) → read_text (write_runes (codes s) rest) ≡ some (s, rest)
unfolding read_text
read_text-write_runes s rest =
    read_runes-write_runes s (length (write_runes (codes s) rest)) rest
      (omega (arith, runes_length (codes s) rest))

-- The rounds that a value takes.
unfoldable mutual
  pub json_size : Json → ℕ
  json_size (object f) = suc (fields_size f)
  json_size v = 1

  pub fields_size : Fields → ℕ
  fields_size end = 1
  fields_size (field k v f) = suc (json_size v + fields_size f)

-- A value is read when it was written, and is not longer than its text.
pub record IsRead (v : Json) : Type 0 where
  reads :
      (fuel : ℕ) (rest : List ℕ)
      → json_size v ≤ fuel
      → read_json fuel (write_json v rest) ≡ some (v, rest)
  sized : (rest : List ℕ) → json_size v + length rest ≤ length (write_json v rest)

-- So is every member, and every key is there once.
abbrev AllRead : Fields → Type 0
AllRead end = Unit
AllRead (field k v f) = IsRead v × (lookup k f ≡ none) × AllRead f

null-IsRead : IsRead null
unfolding json_size write_json read_json token skip is_space literal word strip codes value_of
null-IsRead = record { reads = go; sized = λ rest. omega arith }
  where
    go :
        (fuel : ℕ) (rest : List ℕ)
        → 1 ≤ fuel
        → read_json fuel (codes "null" ++ rest) ≡ some (null, rest)
    go zero rest h = absurd (omega arith)
    go (suc fuel) rest h = refl

text-IsRead : (s : String) → IsRead (text s)
unfolding json_size write_json write_text read_json token skip is_space value_of
text-IsRead s = record { reads = go; sized = λ rest. omega (arith, runes_length (codes s) rest) }
  where
    go :
        (fuel : ℕ) (rest : List ℕ)
        → 1 ≤ fuel
        → read_json fuel (write_text s rest) ≡ some (text s, rest)
    go zero rest h = absurd (omega arith)
    go (suc fuel) rest h =
        ap (λ r. chain r (λ x more. some (text x, more))) (read_text-write_runes s rest)

keep_new : (k : String) (v : Json) (f : Fields) → lookup k f ≡ none → keep k v f ≡ field k v f
unfolding keep
keep_new k v f e = ap (unless_set k v f) e

-- A member is read, if its value is and the members after it are.
member_lem :
    (fuel : ℕ) (k : String) (v : Json) (f : Fields) (rest : List ℕ)
    → read_json fuel (write_json v (write_more f rest)) ≡ some (v, write_more f rest)
    → read_more fuel (write_more f rest) ≡ some (f, rest)
    → lookup k f ≡ none
    → member
        (read_json fuel)
        (read_more fuel)
        (write_runes (codes k) (58 ∷ write_json v (write_more f rest)))
      ≡ some (field k v f, rest)
unfolding member colon skip is_space
member_lem fuel k v f rest ev ef n =
    rw (read_text-write_runes k (58 ∷ write_json v (write_more f rest)), ev, ef, keep_new k v f n)
      refl

fields_size_pos : (f : Fields) → 1 ≤ fields_size f
unfolding fields_size
fields_size_pos end = omega arith
fields_size_pos (field k v f) = omega arith

read_more_lem :
    (f : Fields) (fuel : ℕ) (rest : List ℕ)
    → AllRead f
    → fields_size f ≤ fuel
    → read_more fuel (write_more f rest) ≡ some (f, rest)
unfolding fields_size write_more read_more next_member quoted skip is_space members_of write_text
read_more_lem f zero rest a h = absurd (omega (arith, fields_size_pos f))
read_more_lem end (suc fuel) rest a h = refl
read_more_lem (field k v f) (suc fuel) rest (r, n, a) h =
    member_lem fuel k v f rest (r.reads fuel (write_more f rest) (omega arith))
      (read_more_lem f fuel rest a (omega arith)) n

read_fields_lem :
    (f : Fields) (fuel : ℕ) (rest : List ℕ)
    → AllRead f
    → fields_size f ≤ fuel
    → read_fields fuel (write_fields f rest) ≡ some (f, rest)
unfolding fields_size write_fields read_fields first_member skip is_space members_of write_text
read_fields_lem f zero rest a h = absurd (omega (arith, fields_size_pos f))
read_fields_lem end (suc fuel) rest a h = refl
read_fields_lem (field k v f) (suc fuel) rest (r, n, a) h =
    member_lem fuel k v f rest (r.reads fuel (write_more f rest) (omega arith))
      (read_more_lem f fuel rest a (omega arith)) n

write_more-length :
    (f : Fields) (rest : List ℕ)
    → AllRead f
    → fields_size f + length rest ≤ length (write_more f rest)
unfolding fields_size write_more write_text
write_more-length end rest a = omega arith
write_more-length (field k v f) rest (r, n, a) = omega (
  arith,
  runes_length (codes k) (58 ∷ write_json v (write_more f rest)),
  r.sized (write_more f rest),
  write_more-length f rest a,
)

write_fields-length :
    (f : Fields) (rest : List ℕ)
    → AllRead f
    → fields_size f + length rest ≤ length (write_fields f rest)
unfolding fields_size write_fields write_text
write_fields-length end rest a = omega arith
write_fields-length (field k v f) rest (r, n, a) = omega (
  arith,
  runes_length (codes k) (58 ∷ write_json v (write_more f rest)),
  r.sized (write_more f rest),
  write_more-length f rest a,
)

object-IsRead : (f : Fields) → AllRead f → IsRead (object f)
unfolding json_size write_json read_json token skip is_space value_of
object-IsRead f a = record {
  reads = go;
  sized = λ rest. omega (arith, write_fields-length f rest a);
}
  where
    go :
        (fuel : ℕ) (rest : List ℕ)
        → suc (fields_size f) ≤ fuel
        → read_json fuel (123 ∷ write_fields f rest) ≡ some (object f, rest)
    go zero rest h = absurd (omega arith)
    go (suc fuel) rest h =
        ap (λ r. chain r (λ x more. some (object x, more)))
          (read_fields_lem f fuel rest a (omega arith))

text_value-IsRead : (v : Json) → IsText v → IsRead v
text_value-IsRead (text s) i = text-IsRead s
text_value-IsRead null i = absurd i
text_value-IsRead (bool b) i = absurd i
text_value-IsRead (number s) i = absurd i
text_value-IsRead (array xs) i = absurd i
text_value-IsRead (object g) i = absurd i

strings_read : (f : Fields) → Keyed IsText f → AllRead f
strings_read end i = tt
strings_read (field k v f) (t, n, i) = (text_value-IsRead v t, n, strings_read f i)

plain-IsRead : (v : Json) → IsPlainValue v → IsRead v
plain-IsRead null i = null-IsRead
plain-IsRead (text s) i = text-IsRead s
plain-IsRead (object f) i = object-IsRead f (strings_read f i)
plain-IsRead (bool b) i = absurd i
plain-IsRead (number s) i = absurd i
plain-IsRead (array xs) i = absurd i

plain_read : (f : Fields) → IsPlain f → AllRead f
plain_read end i = tt
plain_read (field k v f) (p, n, i) = (plain-IsRead v p, n, plain_read f i)

-- A map of plain values is read as it was written.
pub parse-write_json : (f : Fields) → IsPlain f → parse (write_json (object f) []) ≡ ok f
unfolding parse finish skip
parse-write_json f i =
    let r = object-IsRead f (plain_read f i) in
    let cs = write_json (object f) [] in
    ap finish (r.reads (length cs) [] (omega (arith, r.sized [])))
