-- ===== src/Postgres/Pool.antt =====
-- `DSN` and `NewPool`, with the driver pgx as a parameter.
use rdispatch.Common.{String, Option, none, some, List, [], ◌∷◌, if◌then◌else◌}
use rdispatch.Common.Int.{ℤ, pos, ltb_ℤ}
use rdispatch.Common.Text.{concat, decimal}
use rdispatch.Common.Json.{Result, ok, err}
use rdispatch.Common.Resources.{Effect, opened, closed}

pub record Config : Type 0 where
  pub host : String
  pub port : ℤ
  pub database : String
  pub user : String
  pub password : String
  pub max_conns : ℤ
  pub min_conns : ℤ

-- `Config.DSN`.
unfoldable pub dsn : Config → String
dsn c = concat (
    "postgres://"
    ∷ c.user
    ∷ ":"
    ∷ c.password
    ∷ "@"
    ∷ c.host
    ∷ ":"
    ∷ decimal c.port
    ∷ "/"
    ∷ c.database
    ∷ [])

-- `pgxpool.Config`: the two bounds, and the rest as the driver has parsed it.
pub record PoolConfig (Rest : Type 0) : Type 0 where
  pub max_conns : ℤ
  pub min_conns : ℤ
  pub rest : Rest

-- pgxpool: `ParseConfig`, `NewWithConfig` and `Ping`.
pub record Driver (Rest Pool : Type 0) : Type 0 where
  pub parse : String → Result (PoolConfig Rest)
  pub new_pool : PoolConfig Rest → Result Pool
  pub ping : Pool → Option String

module _ {Rest Pool : Type 0} (driver : Driver Rest Pool) where
  -- The bounds that the configuration sets.
  unfoldable pub bounded : Config → PoolConfig Rest → PoolConfig Rest
  bounded cfg p =
      let upper =
        if ltb_ℤ (pos 0) cfg.max_conns then record p { max_conns = cfg.max_conns } else p in
      if ltb_ℤ (pos 0) cfg.min_conns then record upper { min_conns = cfg.min_conns } else upper

  unfoldable pub pinged : Pool → Option String → List (Effect Pool) × Result Pool
  pinged pool none = (opened pool ∷ [], ok pool)
  pinged pool (some e) =
      (opened pool ∷ closed pool ∷ [], err (concat ("pinging postgres: " ∷ e ∷ [])))

  unfoldable pub created : Result Pool → List (Effect Pool) × Result Pool
  created (ok pool) = pinged pool (driver.ping pool)
  created (err e) = ([], err (concat ("creating postgres pool: " ∷ e ∷ [])))

  unfoldable pub parsed : Config → Result (PoolConfig Rest) → List (Effect Pool) × Result Pool
  parsed cfg (ok p) = created (driver.new_pool (bounded cfg p))
  parsed cfg (err e) = ([], err (concat ("parsing postgres DSN: " ∷ e ∷ [])))

  -- `NewPool`.
  unfoldable pub new_pool : Config → List (Effect Pool) × Result Pool
  new_pool cfg = parsed cfg (driver.parse (dsn cfg))
