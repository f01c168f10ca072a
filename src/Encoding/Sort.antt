-- ===== src/Encoding/Sort.antt =====
-- The keys of a map in order, as `json.Marshal` writes them.
use Prim.Native.Nat.{Ordering}
use Prim.Native.String.{compare}
use rdispatch.Common.{
  String, ◌≡◌, refl, ap, sym, ◌∙◌, Bool, true, false, Option, none, some, str_eq, str_eq_iff,
  if◌then◌else◌, Bool-cases, inl, inr,
}
use rdispatch.Common.Json.{
  Json, array, object, Items, no_items, item, Fields, end, field, lookup, Keyed,
}

-- Go's `<` on strings.
unfoldable pub str_lt : String → String → Bool
str_lt s t = elim (compare s t) [ Ordering.lt ↦ true | _ ↦ false ]

unfoldable pub insert_field : String → Json → Fields → Fields
insert_field k v end = field k v end
insert_field k v (field l w f) =
    if str_lt k l then field k v (field l w f) else field l w (insert_field k v f)

unfoldable mutual
  pub sort_json : Json → Json
  sort_json (object f) = object (sort_fields f)
  sort_json (array xs) = array (sort_items xs)
  sort_json v = v

  pub sort_items : Items → Items
  sort_items no_items = no_items
  sort_items (item v xs) = item (sort_json v) (sort_items xs)

  pub sort_fields : Fields → Fields
  sort_fields end = end
  sort_fields (field k v f) = insert_field k (sort_json v) (sort_fields f)

lookup_here : (k : String) (v : Json) (f : Fields) → lookup k (field k v f) ≡ some v
unfolding lookup
lookup_here k v f = rw ((str_eq_iff k k).1 refl) refl

lookup_past :
    (q k : String) (v : Json) (f : Fields)
    → str_eq k q ≡ false
    → lookup q (field k v f) ≡ lookup q f
unfolding lookup
lookup_past q k v f e = rw e refl

-- A key that is not there differs from each that is.
apart :
    (k l : String) (w : Json) (f : Fields)
    → lookup k (field l w f) ≡ none
    → (str_eq l k ≡ false) × (lookup k f ≡ none)
apart k l w f n = elim (Bool-cases (str_eq l k)) [
  | inl e ↦
      let same : l ≡ k = (str_eq_iff l k).0 e in
      absurd (let found = lookup_here k w f in let lost = rw same at n in cc)
  | inr e ↦ (e, sym (lookup_past k l w f e) ∙ n)
]

flip : (k l : String) → str_eq l k ≡ false → str_eq k l ≡ false
flip k l e = elim (Bool-cases (str_eq k l)) [
  | inl same ↦ absurd (let back = (str_eq_iff l k).1 (sym ((str_eq_iff k l).0 same)) in cc)
  | inr apart ↦ apart
]

lookup-insert_field :
    (q k : String) (v : Json) (f : Fields)
    → lookup k f ≡ none
    → lookup q (insert_field k v f) ≡ lookup q (field k v f)
unfolding insert_field
lookup-insert_field q k v end n = refl
lookup-insert_field q k v (field l w f) n = elim (Bool-cases (str_lt k l)) [
  | inl e ↦ rw e refl
  | inr e ↦
      let (differ, rest) = apart k l w f n in
      rw e (swapped q k l v w f differ (lookup-insert_field q k v f rest))
]
  where
    swapped :
        (q k l : String) (v w : Json) (f : Fields)
        → str_eq l k ≡ false
        → lookup q (insert_field k v f) ≡ lookup q (field k v f)
        → lookup q (field l w (insert_field k v f)) ≡ lookup q (field k v (field l w f))
    swapped q k l v w f differ ih = elim (Bool-cases (str_eq l q)) [
      | inl e ↦
          let same : l ≡ q = (str_eq_iff l q).0 e in
          let kq : str_eq k q ≡ false = flip k q (rw same at differ) in
          rw (same, lookup_here q w (insert_field k v f), lookup_past q k v (field q w f) kq)
            (sym (lookup_here q w f))
      | inr e ↦ lookup_past q l w (insert_field k v f) e ∙ ih ∙ both q k l v w f e
    ]
      where
        both :
            (q k l : String) (v w : Json) (f : Fields)
            → str_eq l q ≡ false
            → lookup q (field k v f) ≡ lookup q (field k v (field l w f))
        both q k l v w f e = elim (Bool-cases (str_eq k q)) [
          | inl d ↦
              let same : k ≡ q = (str_eq_iff k q).0 d in
              rw same (lookup_here q v f ∙ sym (lookup_here q v (field l w f)))
          | inr d ↦
              lookup_past q k v f d
              ∙ sym (lookup_past q l w f e)
              ∙ sym (lookup_past q k v (field l w f) d)
        ]

Keyed-insert_field :
    (V : Json → Type 0) (k : String) (v : Json) (f : Fields)
    → V v
    → lookup k f ≡ none
    → Keyed V f
    → Keyed V (insert_field k v f)
unfolding insert_field lookup
Keyed-insert_field V k v end p n i = (p, refl, tt)
Keyed-insert_field V k v (field l w f) p n (pw, nw, i) = elim (Bool-cases (str_lt k l)) [
  | inl e ↦ rw e (p, n, (pw, nw, i))
  | inr e ↦
      let (differ, rest) = apart k l w f n in
      let absent : lookup l (insert_field k v f) ≡ none =
        lookup-insert_field l k v f rest ∙ lookup_past l k v f (flip k l differ) ∙ nw in
      rw e (pw, absent, Keyed-insert_field V k v f p rest i)
]

abbrev pub map_json : Option Json → Option Json
map_json none = none
map_json (some v) = some (sort_json v)

absent_sorted : (k : String) (f : Fields) (o : Option Json) → o ≡ none → map_json o ≡ none
absent_sorted k f none e = refl
absent_sorted k f (some v) e = absurd cc

lookup-field :
    (q k : String) (v : Json) (f g : Fields)
    → lookup q g ≡ map_json (lookup q f)
    → lookup q (field k (sort_json v) g) ≡ map_json (lookup q (field k v f))
lookup-field q k v f g e = elim (Bool-cases (str_eq k q)) [
  | inl d ↦
      let same : k ≡ q = (str_eq_iff k q).0 d in
      rw same (lookup_here q (sort_json v) g ∙ ap map_json (sym (lookup_here q v f)))
  | inr d ↦ lookup_past q k (sort_json v) g d ∙ e ∙ ap map_json (sym (lookup_past q k v f d))
]

-- The sorted map answers a lookup with the sorted value.
pub lookup-sort_fields :
    (V : Json → Type 0) (q : String) (f : Fields)
    → Keyed V f
    → lookup q (sort_fields f) ≡ map_json (lookup q f)
unfolding sort_fields lookup
lookup-sort_fields V q end i = refl
lookup-sort_fields V q (field k v f) (p, n, i) =
    let absent : lookup k (sort_fields f) ≡ none =
      lookup-sort_fields V k f i ∙ absent_sorted k f (lookup k f) n in
    lookup-insert_field q k (sort_json v) (sort_fields f) absent
    ∙ lookup-field q k v f (sort_fields f) (lookup-sort_fields V q f i)

pub sort_fields-Keyed :
    (V : Json → Type 0) (f : Fields)
    → ((v : Json) → V v → V (sort_json v))
    → Keyed V f
    → Keyed V (sort_fields f)
unfolding sort_fields
sort_fields-Keyed V end h i = tt
sort_fields-Keyed V (field k v f) h (p, n, i) =
    Keyed-insert_field V k (sort_json v) (sort_fields f) (h v p)
      (lookup-sort_fields V k f i ∙ absent_sorted k f (lookup k f) n) (sort_fields-Keyed V f h i)
