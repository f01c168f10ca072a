-- ===== src/Observability/Logger.antt =====
-- pkg/observability/logger.go: `NewLogger` and `MustLogger`, with the library zap as a parameter.
use rdispatch.Common.{String, Bool, [], ◌∷◌, Run, done, panic}
use rdispatch.Common.Text.{concat}
use rdispatch.Common.Json.{Result, ok, err}

-- What `cfg.Build` is called on: one of zap's two presets, with the level and the field "service".
pub record LoggerConfig (Level : Type 0) : Type 0 where
  pub development : Bool
  pub level : Level
  pub service : String

-- zap: `UnmarshalText` of a level and `Build`; and the verb `%q` of package fmt.
pub record Zap (Level Logger : Type 0) : Type 0 where
  pub parse_level : String → Result Level
  pub build : LoggerConfig Level → Result Logger
  pub quoted : String → String

module _ {Level Logger : Type 0} (zap : Zap Level Logger) where
  unfoldable pub built : Result Logger → Result Logger
  built (ok logger) = ok logger
  built (err e) = err (concat ("building logger: " ∷ e ∷ []))

  -- What follows the parsing of the level.
  unfoldable pub with_level : String → String → Bool → Result Level → Result Logger
  with_level service level development (ok lvl) =
      built (zap.build (record { development = development; level = lvl; service = service }))
  with_level service level development (err e) =
      err (concat ("parsing log level " ∷ zap.quoted level ∷ ": " ∷ e ∷ []))

  -- `NewLogger`.
  unfoldable pub new_logger : String → String → Bool → Result Logger
  new_logger service level development =
      with_level service level development (zap.parse_level level)

  unfoldable pub or_panic_logger : Result Logger → Run Logger
  or_panic_logger (ok logger) = done logger
  or_panic_logger (err e) = panic

  -- `MustLogger`.
  unfoldable pub must_logger : String → String → Bool → Run Logger
  must_logger service level development = or_panic_logger (new_logger service level development)
