-- ===== src/Encoding/Write.antt =====
-- `json.Marshal` of a map: the keys in order, no white space, and the characters escaped that Go escapes.
use Prim.Native.Char.{code}
use rdispatch.Common.{
  ℕ, ◌+◌, ◌/◌, ◌%◌, String, true, false, Bool, List, [], ◌∷◌, ◌++◌, ltb, ◌==◌, ◌||◌, if◌then◌else◌,
}
use rdispatch.Common.Json.{
  Json, null, bool, number, text, array, object, Items, no_items, item, Fields, end, field,
}

-- The code points of a text.
unfoldable pub codes : String → List ℕ
codes String.[] = []
codes (String.◌∷◌ c s) = code c ∷ codes s

-- A hexadecimal digit, in lower case.
unfoldable pub hex_digit : ℕ → ℕ
hex_digit d = if ltb d 10 then 48 + d else 87 + d

-- `\uXXXX`.
unfoldable pub write_hex : ℕ → List ℕ
write_hex c =
    92
    ∷ 117
    ∷ hex_digit (c / 4096 % 16)
    ∷ hex_digit (c / 256 % 16)
    ∷ hex_digit (c / 16 % 16)
    ∷ hex_digit (c % 16)
    ∷ []

-- Control characters, `<`, `>`, `&`, and the two line separators of JavaScript.
unfoldable pub is_hidden : ℕ → Bool
is_hidden c = ltb c 32 || c == 60 || c == 62 || c == 38 || c == 8232 || c == 8233

-- A character within quotes.
unfoldable pub write_rune : ℕ → List ℕ
write_rune c =
    if c == 34
    then 92 ∷ 34 ∷ []
    else if c == 92
    then 92 ∷ 92 ∷ []
    else if c == 8
    then 92 ∷ 98 ∷ []
    else if c == 12
    then 92 ∷ 102 ∷ []
    else if c == 10
    then 92 ∷ 110 ∷ []
    else if c == 13
    then 92 ∷ 114 ∷ []
    else if c == 9
    then 92 ∷ 116 ∷ []
    else if is_hidden c
    then write_hex c
    else c ∷ []

unfoldable pub write_runes : List ℕ → List ℕ → List ℕ
write_runes [] rest = 34 ∷ rest
write_runes (c ∷ cs) rest = write_rune c ++ write_runes cs rest

-- A text in quotes, before what follows.
unfoldable pub write_text : String → List ℕ → List ℕ
write_text s rest = 34 ∷ write_runes (codes s) rest

-- A value before what follows; in `write_more` and `write_others` a comma goes before each member.
unfoldable mutual
  pub write_json : Json → List ℕ → List ℕ
  write_json null rest = codes "null" ++ rest
  write_json (bool true) rest = codes "true" ++ rest
  write_json (bool false) rest = codes "false" ++ rest
  write_json (number s) rest = codes s ++ rest
  write_json (text s) rest = write_text s rest
  write_json (array xs) rest = 91 ∷ write_items xs rest
  write_json (object f) rest = 123 ∷ write_fields f rest

  pub write_items : Items → List ℕ → List ℕ
  write_items no_items rest = 93 ∷ rest
  write_items (item v xs) rest = write_json v (write_others xs rest)

  pub write_others : Items → List ℕ → List ℕ
  write_others no_items rest = 93 ∷ rest
  write_others (item v xs) rest = 44 ∷ write_json v (write_others xs rest)

  pub write_fields : Fields → List ℕ → List ℕ
  write_fields end rest = 125 ∷ rest
  write_fields (field k v f) rest = write_text k (58 ∷ write_json v (write_more f rest))

  pub write_more : Fields → List ℕ → List ℕ
  write_more end rest = 125 ∷ rest
  write_more (field k v f) rest = 44 ∷ write_text k (58 ∷ write_json v (write_more f rest))
