-- ===== src/Encoding/Codec.antt =====
-- encoding/json as the codec of the services.
use rdispatch.Common.{ℕ, ◌≡◌, refl, ap, ◌∙◌, subst, List, []}
use rdispatch.Common.Json.{
  Fields, object, lookup, Result, ok, Codec, IsCodec, IsPlain, SameValue, SameMap,
}
use rdispatch.Encoding.Utf8.{decode}
use rdispatch.Encoding.Utf8Laws.{encode, decode-encode}
use rdispatch.Encoding.Write.{write_json}
use rdispatch.Encoding.Parse.{parse}
use rdispatch.Encoding.ParseLaws.{parse-write_json}
use rdispatch.Encoding.Sort.{sort_fields}
use rdispatch.Encoding.Plain.{sort_fields-IsPlain, sort_fields-SameMap, SameValue-trans}
use rdispatch.Encoding.Range.{json_range}

-- `json.Marshal` of a map, and `json.Unmarshal` into one.
unfoldable pub marshal : Fields → List ℕ
marshal f = encode (write_json (object (sort_fields f)) [])

unfoldable pub unmarshal : List ℕ → Result Fields
unmarshal b = parse (decode b)

unfoldable pub encoding_json : Codec
encoding_json = record { marshal = λ f. ok (marshal f); unmarshal = unmarshal }

-- A map of plain values is decoded with its keys in order.
pub unmarshal-marshal : (f : Fields) → IsPlain f → unmarshal (marshal f) ≡ ok (sort_fields f)
unfolding marshal unmarshal
unmarshal-marshal f i =
    let written = write_json (object (sort_fields f)) [] in
    ap parse (decode-encode written (json_range (object (sort_fields f)) [] tt))
    ∙ parse-write_json (sort_fields f) (sort_fields-IsPlain f i)

-- A map of plain values is encoded, and what is decoded is the same map.
pub encoding_json-IsCodec : IsCodec encoding_json
unfolding encoding_json
encoding_json-IsCodec f i =
    (marshal f, refl, sort_fields f, unmarshal-marshal f i, sort_fields-SameMap f i)

-- A map that was decoded is encoded again: what is decoded then is still the same map.
pub unmarshal_twice :
    (f g : Fields)
    → IsPlain f
    → unmarshal (marshal f) ≡ ok g
    → (unmarshal (marshal g) ≡ ok (sort_fields g)) × SameMap f (sort_fields g)
unmarshal_twice f g i e =
    let same : sort_fields f ≡ g = let first = unmarshal-marshal f i in cc in
    let plain : IsPlain g = subst IsPlain same (sort_fields-IsPlain f i) in
    (
      unmarshal-marshal g plain,
      λ key.
          SameValue-trans (lookup key f) (lookup key g) (lookup key (sort_fields g))
            (subst (λ g. SameValue (lookup key f) (lookup key g)) same
              (sort_fields-SameMap f i key))
            (sort_fields-SameMap g plain key),
    )
