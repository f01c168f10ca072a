-- ===== src/Postgres/PoolLaws.antt =====
-- What `NewPool` returns, and what it leaves open.
use rdispatch.Common.Int.{pos, ◌<ℤ◌, ◌≤ℤ◌}
use rdispatch.Common.Text.{concat, decimal}
use rdispatch.Common.{◌≡◌, refl, arith, [], ◌∷◌, Option, none, some, String}
use rdispatch.Common.Json.{Result, ok, err}
use rdispatch.Common.Resources.{Settled}
use rdispatch.Postgres.Pool.{
  Config, PoolConfig, Driver, dsn, bounded, pinged, created, parsed, new_pool,
}

module _ {Rest Pool : Type 0} (driver : Driver Rest Pool) where
  -- `made` is `p` with each bound that the configuration sets, and the driver's own where it sets none.
  pub record Bounded (cfg : Config) (p made : PoolConfig Rest) : Type 0 where
    pub max_set : pos 0 <ℤ cfg.max_conns → made.max_conns ≡ cfg.max_conns
    pub max_kept : cfg.max_conns ≤ℤ pos 0 → made.max_conns ≡ p.max_conns
    pub min_set : pos 0 <ℤ cfg.min_conns → made.min_conns ≡ cfg.min_conns
    pub min_kept : cfg.min_conns ≤ℤ pos 0 → made.min_conns ≡ p.min_conns
    pub rest_kept : made.rest ≡ p.rest

  bounded-Bounded : (cfg : Config) (p : PoolConfig Rest) → Bounded cfg p (bounded driver cfg p)
  unfolding bounded
  bounded-Bounded cfg p = record {
    max_set = λ h. ground arith;
    max_kept = λ h. ground arith;
    min_set = λ h. ground arith;
    min_kept = λ h. ground arith;
    rest_kept = ground arith;
  }

  -- The connection string.
  abbrev pub address : Config → String
  address c = concat (
      "postgres://"
      ∷ c.user
      ∷ ":"
      ∷ c.password
      ∷ "@"
      ∷ c.host
      ∷ ":"
      ∷ decimal c.port
      ∷ "/"
      ∷ c.database
      ∷ [])

  -- A pool that is returned was made from the parsed connection string, with the bounds, and has
  -- answered the ping.
  abbrev pub Verified : Config → Result Pool → Type 0
  Verified cfg (err e) = Unit
  Verified cfg (ok pool) =
      (driver.ping pool ≡ none)
      × ((p : PoolConfig Rest) × (made : PoolConfig Rest) × (driver.parse (address cfg) ≡ ok p)
          × Bounded cfg p made
          × (driver.new_pool made ≡ ok pool))

  pinged_ends :
      (cfg : Config) (p : PoolConfig Rest) (pool : Pool) (o : Option String)
      → driver.parse (dsn cfg) ≡ ok p
      → driver.new_pool (bounded driver cfg p) ≡ ok pool
      → driver.ping pool ≡ o
      → Settled (pinged driver pool o).0 (pinged driver pool o).1
        × Verified cfg (pinged driver pool o).1
  unfolding pinged dsn
  pinged_ends cfg p pool none ep en eo =
      (refl, (eo, (p, bounded driver cfg p, ep, bounded-Bounded cfg p, en)))
  pinged_ends cfg p pool (some e) ep en eo = (refl, tt)

  created_ends :
      (cfg : Config) (p : PoolConfig Rest) (r : Result Pool)
      → driver.parse (dsn cfg) ≡ ok p
      → driver.new_pool (bounded driver cfg p) ≡ r
      → Settled (created driver r).0 (created driver r).1 × Verified cfg (created driver r).1
  unfolding created
  created_ends cfg p (ok pool) ep en = pinged_ends cfg p pool (driver.ping pool) ep en refl
  created_ends cfg p (err e) ep en = (refl, tt)

  parsed_ends :
      (cfg : Config) (r : Result (PoolConfig Rest))
      → driver.parse (dsn cfg) ≡ r
      → Settled (parsed driver cfg r).0 (parsed driver cfg r).1
        × Verified cfg (parsed driver cfg r).1
  unfolding parsed
  parsed_ends cfg (ok p) ep = created_ends cfg p _ ep refl
  parsed_ends cfg (err e) ep = (refl, tt)

  -- `NewPool` returns a pool only if it has answered the ping and was made from the parsed connection
  -- string, which names the user, the password, the host, the port and the database, with the maximum
  -- and the minimum of the configuration where they are positive; that one stays open. On each way to an error every
  -- pool that was opened is closed.
  pub new_pool-Settled :
      (cfg : Config)
      → Settled (new_pool driver cfg).0 (new_pool driver cfg).1
        × Verified cfg (new_pool driver cfg).1
  unfolding new_pool
  new_pool-Settled cfg = parsed_ends cfg _ refl
