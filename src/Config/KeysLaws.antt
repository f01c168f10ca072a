-- ===== src/Config/KeysLaws.antt =====
-- Which keys a struct has.
use mathlib.Core.List.{map-append, map-map}
use rdispatch.Common.Text.{concat}
use rdispatch.Common.{◌||◌, if◌then◌else◌, str_eq, String, ◌≡◌, refl, List, [], ◌∷◌, ◌++◌, map}
use rdispatch.Config.Keys.{
  Value, scalar, pointer, struct, Members, no_members, member, Viper, key_of, under, bind_members,
  bind_member, bind_struct_keys,
}

module _ (viper : Viper) where
  -- The tag of a field, or its name in lower case if the tag is missing or a dash.
  abbrev pub key_for : String → String → String
  key_for name tag = if str_eq tag "" || str_eq tag "-" then viper.to_lower name else tag

  -- The leaves of a struct, each with the keys on the way to it, the outermost first.
  unfoldable mutual
    pub leaves : Members → List (List String × Value)
    leaves no_members = []
    leaves (member name tag v rest) =
        map (λ (path, leaf). (key_for name tag ∷ path, leaf)) (leaves_of v) ++ leaves rest

    pub leaves_of : Value → List (List String × Value)
    leaves_of (struct ms) = leaves ms
    leaves_of (scalar s) = ([], scalar s) ∷ []
    leaves_of (pointer v) = ([], pointer v) ∷ []

  -- The keys of a path, joined with dots below a prefix.
  abbrev pub dotted : String → List String → String
  dotted prefix [] = prefix
  dotted prefix (key ∷ keys) =
      dotted (if str_eq prefix "" then key else concat (prefix ∷ "." ∷ key ∷ [])) keys

  abbrev pub at_path : String → List String × Value → String × Value
  at_path prefix (path, leaf) = (dotted prefix path, leaf)

  mutual
    unfolding bind_members bind_member leaves leaves_of key_of under

    bind_members-leaves :
        (ms : Members) (prefix : String)
        → bind_members viper ms prefix ≡ map (at_path prefix) (leaves ms)
    bind_members-leaves no_members prefix = refl
    bind_members-leaves (member name tag v rest) prefix =
        rw
          (
            map-append (at_path prefix)
                (map (λ (path, leaf). (key_for name tag ∷ path, leaf)) (leaves_of v)) (leaves rest),
            map-map (at_path prefix) (λ (path, leaf). (key_for name tag ∷ path, leaf))
                (leaves_of v),
            bind_member-leaves v (dotted prefix (key_for name tag ∷ [])),
            bind_members-leaves rest prefix,
          )
          refl

    bind_member-leaves :
        (v : Value) (key : String) → bind_member viper v key ≡ map (at_path key) (leaves_of v)
    bind_member-leaves (struct ms) key = bind_members-leaves ms key
    bind_member-leaves (scalar s) key = refl
    bind_member-leaves (pointer v) key = refl

  -- For a pointer to a struct, `bindStructKeys` sets one default for each leaf of the nested structs, in
  -- the order of the fields: its key is the keys on the way to it joined with dots, and its value the
  -- one that the field has.
  pub bind_struct_keys-leaves :
      (ms : Members) (prefix : String)
      → bind_struct_keys viper (pointer (struct ms)) prefix ≡ map (at_path prefix) (leaves ms)
  unfolding bind_struct_keys
  bind_struct_keys-leaves ms prefix = bind_members-leaves ms prefix
