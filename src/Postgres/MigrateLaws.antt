-- ===== src/Postgres/MigrateLaws.antt =====
-- How `Migrate` ends, and what it leaves behind.
use rdispatch.Common.{String, ◌≡◌, refl, ◌↔◌, Option, none, some}
use rdispatch.Common.Json.{Result, ok, err}
use rdispatch.Common.Resources.{opens, closes}
use rdispatch.Postgres.Migrate.{Goose, Migrated, wrapped, with_dialect, with_db, migrate}

module _ {Db Schema : Type 0} (goose : Goose Db Schema) (dsn dir : String) (schema : Schema) where
  -- The database opens, the dialect is set, and the migrations run on that database without an error.
  abbrev pub Applies : Schema → Type 0
  Applies after =
      (db : Db) × (goose.open_db "pgx" dsn ≡ ok db)
      × (goose.set_dialect "postgres" ≡ none)
      × (goose.up db dir schema ≡ (after, none))

  -- The migrations have been started: the database is open and the dialect is set.
  abbrev pub Started : Type 0
  Started = (db : Db) × (goose.open_db "pgx" dsn ≡ ok db) × (goose.set_dialect "postgres" ≡ none)

  pub record Ends (m : Migrated Db Schema) : Type 0 where
    pub balanced : opens m.effects ≡ closes m.effects
    pub success : (m.error ≡ none) ↔ Applies m.schema
    pub untouched : ¬ Started → m.schema ≡ schema

  up_ends :
      (db : Db) (after : Schema) (error : Option String)
      → goose.open_db "pgx" dsn ≡ ok db
      → goose.set_dialect "postgres" ≡ none
      → goose.up db dir schema ≡ (after, error)
      → (wrapped "running migrations" error ≡ none) ↔ Applies after
  unfolding wrapped
  up_ends db after none eo es eu = (λ e. (db, eo, es, eu), λ a. refl)
  up_ends db after (some e) eo es eu = (λ a. cc, λ (db', o, d, u). cc)

  with_dialect_ends :
      (db : Db) (o : Option String)
      → goose.open_db "pgx" dsn ≡ ok db
      → goose.set_dialect "postgres" ≡ o
      → ((with_dialect goose dir schema db o).1 ≡ none
          ↔ Applies (with_dialect goose dir schema db o).0)
        × (¬ Started → (with_dialect goose dir schema db o).0 ≡ schema)
  unfolding with_dialect wrapped
  with_dialect_ends db none eo es = (up_ends db _ _ eo es refl, λ n. absurd (n (db, eo, es)))
  with_dialect_ends db (some e) eo es = ((λ a. cc, λ (db', o, d, u). cc), λ n. refl)

  with_db-Ends : (r : Result Db) → goose.open_db "pgx" dsn ≡ r → Ends (with_db goose dir schema r)
  unfolding with_db wrapped
  with_db-Ends (ok db) eo =
      let (success, untouched) = with_dialect_ends db (goose.set_dialect "postgres") eo refl in
      record { balanced = refl; success = success; untouched = untouched }
  with_db-Ends (err e) eo = record {
    balanced = refl;
    success = (λ a. cc, λ (db, o, d, u). cc);
    untouched = λ n. refl;
  }

  -- `Migrate` closes every database that it opens. It returns no error exactly if the database opens,
  -- the dialect can be set and the migrations then run on that database without one. Unless the database
  -- opens and the dialect can be set, the schema stays as it was.
  pub migrate-Ends : Ends (migrate goose dsn dir schema)
  unfolding migrate
  migrate-Ends = with_db-Ends (goose.open_db "pgx" dsn) refl
