-- ===== src/Config/LoadLaws.antt =====
-- What `Load` gives to viper, and when it fails.
use rdispatch.Common.{String, ◌≡◌, ◌⊎◌, true, false, Option, none, some, ◌∷◌, [], map, str_eq}
use rdispatch.Common.Text.{concat}
use rdispatch.Common.Json.{Result, err}
use rdispatch.Config.Keys.{
  Value, pointer, struct, Members, read_well, file_not_found, read_fails, Viper, unmarshalled,
}
use rdispatch.Config.KeysLaws.{leaves, at_path}

module _ (viper : Viper) (env path : String) (ms : Members) where
  -- The result of `Unmarshal` with one default for each leaf of the struct, under its dotted path.
  abbrev pub from_viper : Option String → Result Value
  from_viper file =
      unmarshalled viper
        (viper.unmarshal env (map (at_path viper "") (leaves viper ms)) file (pointer (struct ms)))

  -- The three ways through `Load`.
  pub data Loads : Result Value → Type 0 where
    unread :
        (e : String)
        → str_eq path "" ≡ false
        → viper.read path ≡ read_fails e
        → Loads (err (concat ("reading config file " ∷ path ∷ ": " ∷ e ∷ [])))
    without_file :
        (str_eq path "" ≡ true) ⊎ (viper.read path ≡ file_not_found) → Loads (from_viper none)
    with_file :
        str_eq path "" ≡ false → viper.read path ≡ read_well → Loads (from_viper (some path))
