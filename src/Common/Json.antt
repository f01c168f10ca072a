-- ===== src/Common/Json.antt =====
-- JSON values as Go's `any`, objects as maps from keys, and encoding/json as a parameter.
use Prim.Native.Nat.{ℕ}
use Prim.Native.String.{String}
use mathlib.Core.Path.{◌≡◌}
use mathlib.Core.Bool.{Bool}
use mathlib.Core.Option.{Option, none, some}
use mathlib.Core.List.{List, [], ◌∷◌}
use rdispatch.Common.Tests.{str_eq, if◌then◌else◌}

mutual
  pub data Json : Type 0 where
    null : Json
    bool : Bool → Json
    number : String → Json
    text : String → Json
    array : Items → Json
    object : Fields → Json

  pub data Items : Type 0 where
    no_items : Items
    item : Json → Items → Items

  pub data Fields : Type 0 where
    end : Fields
    field : String → Json → Fields → Fields

-- `m[key]`, with `none` for a missing key.
unfoldable pub lookup : String → Fields → Option Json
lookup key end = none
lookup key (field k v rest) = if str_eq k key then some v else lookup key rest

-- A `map[string]string` as an object.
unfoldable pub of_strings : List (String × String) → Fields
of_strings [] = end
of_strings ((k, v) ∷ rest) = field k (text v) (of_strings rest)

-- A call of `Marshal` or `Unmarshal`: a value, or the text of the error.
pub data Result {ℓ} (A : Type ℓ) : Type ℓ where
  ok : A → Result A
  err : String → Result A

-- `v, _ := …`: an error leaves the nil slice.
abbrev pub or_nil : Result (List ℕ) → List ℕ
or_nil (ok b) = b
or_nil (err e) = []

pub record Codec : Type 0 where
  pub marshal : Fields → Result (List ℕ)
  pub unmarshal : List ℕ → Result Fields

-- A map: every key once, and values that satisfy `V`.
abbrev pub Keyed : (Json → Type 0) → Fields → Type 0
Keyed V end = Unit
Keyed V (field k v rest) = V v × (lookup k rest ≡ none) × Keyed V rest

abbrev pub IsText : Json → Type 0
IsText (text s) = Unit
IsText v = ⊥

-- A nil, a text or a `map[string]string`.
abbrev pub IsPlainValue : Json → Type 0
IsPlainValue null = Unit
IsPlainValue (text s) = Unit
IsPlainValue (object f) = Keyed IsText f
IsPlainValue v = ⊥

-- A map of such values.
abbrev pub IsPlain : Fields → Type 0
IsPlain = Keyed IsPlainValue

-- The same value; two maps are the same if they answer every lookup alike.
abbrev pub SameValue : Option Json → Option Json → Type 0
SameValue (some (object f)) (some (object g)) = (key : String) → lookup key f ≡ lookup key g
SameValue a b = a ≡ b

abbrev pub SameMap : Fields → Fields → Type 0
SameMap f g = (key : String) → SameValue (lookup key f) (lookup key g)

-- A map of plain values is encoded, and decoding that gives the same map.
abbrev pub IsCodec : Codec → Type 0
IsCodec c =
    (f : Fields)
    → IsPlain f
    → (b : List ℕ) × (c.marshal f ≡ ok b) × (g : Fields) × (c.unmarshal b ≡ ok g) × SameMap f g
