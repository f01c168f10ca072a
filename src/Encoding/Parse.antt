-- ===== src/Encoding/Parse.antt =====
-- `json.Unmarshal` into a map: values with any white space; of two members with one key the later counts.
use rdispatch.Common.{
  ℕ, zero, suc, String, true, false, Option, none, some, List, [], ◌∷◌, ◌==◌, if◌then◌else◌, length,
}
use rdispatch.Common.Json.{
  Json, null, bool, text, array, object, Items, no_items, item, Fields, end, field, lookup, Result,
  ok, err,
}
use rdispatch.Encoding.Write.{codes}
use rdispatch.Encoding.Read.{skip, read_runes}
use rdispatch.Encoding.Number.{chain, read_number}

-- A text after its opening quote.
unfoldable pub read_text : List ℕ → Option (String × List ℕ)
read_text cs = read_runes (length cs) cs

-- What is left after a word.
unfoldable pub strip : List ℕ → List ℕ → Option (List ℕ)
strip [] cs = some cs
strip (w ∷ ws) [] = none
strip (w ∷ ws) (c ∷ cs) = let more = strip ws cs in if w == c then more else none

unfoldable pub word : String → Json → List ℕ → Option (Json × List ℕ)
word s v cs = elim (strip (codes s) cs) [ some rest ↦ some (v, rest) | none ↦ none ]

-- The first character of a value, and what follows it.
pub data Token : Type 0 where
  quote brace bracket : List ℕ → Token
  other : ℕ → List ℕ → Token
  nothing : Token

unfoldable pub token : List ℕ → Token
token [] = nothing
token (c ∷ cs) =
    if c == 34
    then quote cs
    else if c == 123
    then brace cs
    else if c == 91
    then bracket cs
    else other c cs

unfoldable pub literal : ℕ → List ℕ → Option (Json × List ℕ)
literal c cs =
    if c == 110
    then word "null" null (c ∷ cs)
    else if c == 116
    then word "true" (bool true) (c ∷ cs)
    else if c == 102
    then word "false" (bool false) (c ∷ cs)
    else read_number (c ∷ cs)

-- A value, given how the insides of objects and arrays are read.
unfoldable pub value_of :
    Token
    → (List ℕ → Option (Fields × List ℕ))
    → (List ℕ → Option (Items × List ℕ))
    → Option (Json × List ℕ)
value_of (quote cs) fields items = chain (read_text cs) (λ s rest. some (text s, rest))
value_of (brace cs) fields items = chain (fields cs) (λ f rest. some (object f, rest))
value_of (bracket cs) fields items = chain (items cs) (λ xs rest. some (array xs, rest))
value_of (other c cs) fields items = literal c cs
value_of nothing fields items = none

abbrev pub unless_set : String → Json → Fields → Option Json → Fields
unless_set k v f none = field k v f
unless_set k v f (some w) = f

-- `m[k] = v` before the later members are set.
unfoldable pub keep : String → Json → Fields → Fields
keep k v f = unless_set k v f (lookup k f)

-- What is left after a colon.
unfoldable pub colon : List ℕ → Option (ℕ × List ℕ)
colon [] = none
colon (c ∷ cs) = if c == 58 then some (c, cs) else none

-- A member after its opening quote, and those that follow it.
unfoldable pub member :
    (List ℕ → Option (Json × List ℕ))
    → (List ℕ → Option (Fields × List ℕ))
    → List ℕ
    → Option (Fields × List ℕ)
member value more cs = chain (read_text cs) (λ k after_key.
    chain (colon (skip after_key)) (λ sign after_colon.
      chain (value after_colon)
        (λ v after_value. chain (more after_value) (λ f rest. some (keep k v f, rest)))))

-- Where an object starts, and where it goes on.
pub data Next : Type 0 where
  over : List ℕ → Next
  starts : List ℕ → Next
  wrong : Next

unfoldable pub first_member : List ℕ → Next
first_member [] = wrong
first_member (c ∷ cs) = if c == 125 then over cs else if c == 34 then starts cs else wrong

unfoldable pub quoted : List ℕ → Next
quoted [] = wrong
quoted (c ∷ cs) = if c == 34 then starts cs else wrong

unfoldable pub next_member : List ℕ → Next
next_member [] = wrong
next_member (c ∷ cs) = if c == 125 then over cs else if c == 44 then quoted (skip cs) else wrong

unfoldable pub members_of : Next → (List ℕ → Option (Fields × List ℕ)) → Option (Fields × List ℕ)
members_of (over cs) read = some (end, cs)
members_of (starts cs) read = read cs
members_of wrong read = none

unfoldable pub items_of :
    Next
    → (List ℕ → Option (Json × List ℕ))
    → (List ℕ → Option (Items × List ℕ))
    → Option (Items × List ℕ)
items_of (over cs) value more = some (no_items, cs)
items_of (starts cs) value more =
    chain (value cs) (λ v after. chain (more after) (λ xs rest. some (item v xs, rest)))
items_of wrong value more = none

unfoldable pub first_item : List ℕ → Next
first_item [] = wrong
first_item (c ∷ cs) = if c == 93 then over cs else starts (c ∷ cs)

unfoldable pub next_item : List ℕ → Next
next_item [] = wrong
next_item (c ∷ cs) = if c == 93 then over cs else if c == 44 then starts cs else wrong

-- On fuel; each round uses up a character.
unfoldable mutual
  pub read_json : ℕ → List ℕ → Option (Json × List ℕ)
  read_json zero cs = none
  read_json (suc fuel) cs = value_of (token (skip cs)) (read_fields fuel) (read_items fuel)

  pub read_fields : ℕ → List ℕ → Option (Fields × List ℕ)
  read_fields zero cs = none
  read_fields (suc fuel) cs =
      members_of (first_member (skip cs)) (member (read_json fuel) (read_more fuel))

  pub read_more : ℕ → List ℕ → Option (Fields × List ℕ)
  read_more zero cs = none
  read_more (suc fuel) cs =
      members_of (next_member (skip cs)) (member (read_json fuel) (read_more fuel))

  pub read_items : ℕ → List ℕ → Option (Items × List ℕ)
  read_items zero cs = none
  read_items (suc fuel) cs = items_of (first_item (skip cs)) (read_json fuel) (read_others fuel)

  pub read_others : ℕ → List ℕ → Option (Items × List ℕ)
  read_others zero cs = none
  read_others (suc fuel) cs = items_of (next_item (skip cs)) (read_json fuel) (read_others fuel)

unfoldable pub finish : Option (Json × List ℕ) → Result Fields
finish (some (object f, rest)) = elim (skip rest) [
  | [] ↦ ok f
  | c ∷ cs ↦ err "invalid character after top-level value"
]
finish (some (null, rest)) = elim (skip rest) [
  | [] ↦ ok end
  | c ∷ cs ↦ err "invalid character after top-level value"
]
finish (some (v, rest)) = err "cannot unmarshal into Go value of type map"
finish none = err "invalid JSON"

-- The map in some code points.
unfoldable pub parse : List ℕ → Result Fields
parse cs = finish (read_json (length cs) cs)
