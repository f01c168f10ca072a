-- ===== src/Config/Keys.antt =====
-- `bindStructKeys`, `Load` and `MustLoad`, with the library viper as a parameter.
use rdispatch.Common.{
  String, Option, none, some, List, [], ◌∷◌, ◌++◌, Run, done, panic, ◌||◌, str_eq, if◌then◌else◌,
}
use rdispatch.Common.Text.{concat}
use rdispatch.Common.Json.{Result, ok, err}

-- A value as package reflect sees it: a struct, a pointer, or anything else, by its text.
mutual
  pub data Value : Type 0 where
    scalar : String → Value
    pointer : Value → Value
    struct : Members → Value

  -- The fields of a struct: name, `mapstructure` tag ("" for none), value.
  pub data Members : Type 0 where
    no_members : Members
    member : String → String → Value → Members → Members

-- How `ReadInConfig` ends. The code tests for `file_not_found`, viper's `ConfigFileNotFoundError`, which comes
-- from a search; a file that `SetConfigFile` names and that is missing is an `os.PathError`, so `read_fails`.
pub data ReadEnd : Type 0 where
  read_well file_not_found : ReadEnd
  read_fails : String → ReadEnd

-- viper: `ReadInConfig` of a path, and `Unmarshal` with the prefix of the environment, the defaults that
-- were set, and the path of the file that was read, if any. `to_lower` is `strings.ToLower`.
pub record Viper : Type 0 where
  pub to_lower : String → String
  pub read : String → ReadEnd
  pub unmarshal : String → List (String × Value) → Option String → Value → Result Value

module _ (viper : Viper) where
  -- The tag of a field if it has one, and its name in lower case otherwise.
  unfoldable pub key_of : String → String → String
  key_of name tag = if str_eq tag "" || str_eq tag "-" then viper.to_lower name else tag

  unfoldable pub under : String → String → String
  under prefix key = if str_eq prefix "" then key else concat (prefix ∷ "." ∷ key ∷ [])

  -- The loop over the fields of a struct: the calls of `SetDefault`, in order.
  unfoldable mutual
    pub bind_members : Members → String → List (String × Value)
    bind_members no_members prefix = []
    bind_members (member name tag v rest) prefix =
        bind_member v (under prefix (key_of name tag)) ++ bind_members rest prefix

    pub bind_member : Value → String → List (String × Value)
    bind_member (struct ms) key = bind_members ms key
    bind_member (scalar s) key = (key, scalar s) ∷ []
    bind_member (pointer v) key = (key, pointer v) ∷ []

  -- `if val.Kind() == reflect.Ptr { val = val.Elem() }`.
  abbrev pub elem : Value → Value
  elem (pointer v) = v
  elem v = v

  abbrev pub bind_struct : Value → String → List (String × Value)
  bind_struct (struct ms) prefix = bind_members ms prefix
  bind_struct v prefix = []

  unfoldable pub bind_struct_keys : Value → String → List (String × Value)
  bind_struct_keys dst prefix = bind_struct (elem dst) prefix

  unfoldable pub unmarshalled : Result Value → Result Value
  unmarshalled (ok v) = ok v
  unmarshalled (err e) = err (concat ("unmarshaling config: " ∷ e ∷ []))

  -- What follows the reading of a file.
  unfoldable pub after_read : String → String → Value → ReadEnd → Result Value
  after_read env path dst read_well =
      unmarshalled (viper.unmarshal env (bind_struct_keys dst "") (some path) dst)
  after_read env path dst file_not_found =
      unmarshalled (viper.unmarshal env (bind_struct_keys dst "") none dst)
  after_read env path dst (read_fails e) =
      err (concat ("reading config file " ∷ path ∷ ": " ∷ e ∷ []))

  -- `Load`: the new value of `dst`, or an error.
  unfoldable pub load_config : String → String → Value → Result Value
  load_config env path dst =
      if str_eq path ""
      then unmarshalled (viper.unmarshal env (bind_struct_keys dst "") none dst)
      else after_read env path dst (viper.read path)

  unfoldable pub or_panic_config : Result Value → Run Value
  or_panic_config (ok v) = done v
  or_panic_config (err e) = panic

  -- `MustLoad`.
  unfoldable pub must_load : String → String → Value → Run Value
  must_load env path dst = or_panic_config (load_config env path dst)
