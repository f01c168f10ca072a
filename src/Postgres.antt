-- ===== src/Postgres.antt =====
-- pkg/postgres/postgres.go: the connection string and the pool; pkg/postgres/migrate.go: the migrations.
pub mod Pool
pub mod PoolLaws
pub mod Migrate
pub mod MigrateLaws
