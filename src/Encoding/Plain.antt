-- ===== src/Encoding/Plain.antt =====
-- Sorting the maps that the services encode.
use rdispatch.Common.{
  String, ◌≡◌, refl, sym, ◌∙◌, subst, str_eq, Bool-cases, inl, inr, Option, none, some,
}
use rdispatch.Common.Json.{
  Json, null, bool, number, text, array, object, Fields, end, field, lookup, Keyed, IsText,
  IsPlainValue, IsPlain, SameValue, SameMap,
}
use rdispatch.Encoding.Sort.{
  sort_json, sort_fields, map_json, lookup-sort_fields, sort_fields-Keyed,
}

sort_json-IsText : (v : Json) → IsText v → IsText (sort_json v)
unfolding sort_json
sort_json-IsText (text s) i = tt
sort_json-IsText null i = absurd i
sort_json-IsText (bool b) i = absurd i
sort_json-IsText (number s) i = absurd i
sort_json-IsText (array xs) i = absurd i
sort_json-IsText (object g) i = absurd i

plain_sorted : (v : Json) → IsPlainValue v → IsPlainValue (sort_json v)
unfolding sort_json
plain_sorted null i = tt
plain_sorted (text s) i = tt
plain_sorted (object f) i = sort_fields-Keyed IsText f sort_json-IsText i
plain_sorted (bool b) i = absurd i
plain_sorted (number s) i = absurd i
plain_sorted (array xs) i = absurd i

pub sort_fields-IsPlain : (f : Fields) → IsPlain f → IsPlain (sort_fields f)
sort_fields-IsPlain f i = sort_fields-Keyed IsPlainValue f plain_sorted i

-- A value that is found satisfies what the values do.
abbrev Found : (Json → Type 0) → Option Json → Type 0
Found V none = Unit
Found V (some v) = V v

found : (V : Json → Type 0) (q : String) (f : Fields) → Keyed V f → Found V (lookup q f)
unfolding lookup
found V q end i = tt
found V q (field k v f) (p, n, i) = elim (Bool-cases (str_eq k q)) [
  | inl e ↦ rw e p
  | inr e ↦ rw e (found V q f i)
]

unchanged : (o : Option Json) → Found IsText o → map_json o ≡ o
unfolding sort_json
unchanged none i = refl
unchanged (some (text s)) i = refl
unchanged (some null) i = refl
unchanged (some (bool b)) i = refl
unchanged (some (number s)) i = refl
unchanged (some (array xs)) i = absurd i
unchanged (some (object f)) i = absurd i

same_value : (o : Option Json) → Found IsPlainValue o → SameValue o (map_json o)
unfolding sort_json
same_value none i = refl
same_value (some null) i = refl
same_value (some (text s)) i = refl
same_value (some (object f)) i =
    λ key. sym (lookup-sort_fields IsText key f i ∙ unchanged (lookup key f) (found IsText key f i))
same_value (some (bool b)) i = absurd i
same_value (some (number s)) i = absurd i
same_value (some (array xs)) i = absurd i

-- The sorted map is the same map.
pub sort_fields-SameMap : (f : Fields) → IsPlain f → SameMap f (sort_fields f)
sort_fields-SameMap f i key =
    subst (λ o. SameValue (lookup key f) o) (sym (lookup-sort_fields IsPlainValue key f i))
      (same_value (lookup key f) (found IsPlainValue key f i))

pub SameValue-trans : (a b c : Option Json) → SameValue a b → SameValue b c → SameValue a c
SameValue-trans (some (object f)) (some (object g)) (some (object h)) p q = λ key. p key ∙ q key
SameValue-trans (some (object f)) (some (object g)) none p q = absurd cc
SameValue-trans (some (object f)) (some (object g)) (some null) p q = absurd cc
SameValue-trans (some (object f)) (some (object g)) (some (bool b)) p q = absurd cc
SameValue-trans (some (object f)) (some (object g)) (some (number s)) p q = absurd cc
SameValue-trans (some (object f)) (some (object g)) (some (text s)) p q = absurd cc
SameValue-trans (some (object f)) (some (object g)) (some (array xs)) p q = absurd cc
SameValue-trans (some (object f)) none c p q = absurd cc
SameValue-trans (some (object f)) (some null) c p q = absurd cc
SameValue-trans (some (object f)) (some (bool b)) c p q = absurd cc
SameValue-trans (some (object f)) (some (number s)) c p q = absurd cc
SameValue-trans (some (object f)) (some (text s)) c p q = absurd cc
SameValue-trans (some (object f)) (some (array xs)) c p q = absurd cc
SameValue-trans none b c p q = subst (λ b. SameValue b c) (sym p) q
SameValue-trans (some null) b c p q = subst (λ b. SameValue b c) (sym p) q
SameValue-trans (some (bool b')) b c p q = subst (λ b. SameValue b c) (sym p) q
SameValue-trans (some (number s)) b c p q = subst (λ b. SameValue b c) (sym p) q
SameValue-trans (some (text s)) b c p q = subst (λ b. SameValue b c) (sym p) q
SameValue-trans (some (array xs)) b c p q = subst (λ b. SameValue b c) (sym p) q
