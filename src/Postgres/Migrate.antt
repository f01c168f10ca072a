-- ===== src/Postgres/Migrate.antt =====
-- pkg/postgres/migrate.go: `Migrate`, with database/sql and goose as parameters.
use rdispatch.Common.{String, Option, none, some, List, [], ◌∷◌}
use rdispatch.Common.Text.{concat}
use rdispatch.Common.Json.{Result, ok, err}
use rdispatch.Common.Resources.{Effect, opened, closed}

-- `sql.Open` for a driver and a connection string, `goose.SetDialect`, and `goose.UpContext`, which
-- leaves a schema and reports an error or none.
pub record Goose (Db Schema : Type 0) : Type 0 where
  pub open_db : String → String → Result Db
  pub set_dialect : String → Option String
  pub up : Db → String → Schema → Schema × Option String

-- What a call does: the databases that it opens and closes, the schema that it leaves, and the error
-- that it returns, if any.
pub record Migrated (Db Schema : Type 0) : Type 0 where
  pub effects : List (Effect Db)
  pub schema : Schema
  pub error : Option String

-- `fmt.Errorf("…: %w", err)`, if there is an error.
unfoldable pub wrapped : String → Option String → Option String
wrapped prefix none = none
wrapped prefix (some e) = some (concat (prefix ∷ ": " ∷ e ∷ []))

module _ {Db Schema : Type 0} (goose : Goose Db Schema) where
  -- What follows `SetDialect`.
  unfoldable pub with_dialect : String → Schema → Db → Option String → Schema × Option String
  with_dialect dir schema db none =
      let (after, error) = goose.up db dir schema in (after, wrapped "running migrations" error)
  with_dialect dir schema db (some e) = (schema, wrapped "setting goose dialect" (some e))

  -- What follows `Open`; the deferred `Close` runs on every way out.
  unfoldable pub with_db : String → Schema → Result Db → Migrated Db Schema
  with_db dir schema (ok db) =
      let (after, error) = with_dialect dir schema db (goose.set_dialect "postgres") in
      record { effects = opened db ∷ closed db ∷ []; schema = after; error = error }
  with_db dir schema (err e) = record {
    effects = [];
    schema = schema;
    error = wrapped "opening database for migrations" (some e);
  }

  -- `Migrate`.
  unfoldable pub migrate : String → String → Schema → Migrated Db Schema
  migrate dsn dir schema = with_db dir schema (goose.open_db "pgx" dsn)
