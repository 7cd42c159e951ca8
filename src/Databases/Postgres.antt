-- ===== src/Databases/Postgres.antt =====
-- internal/pkg/dbx/postgres.go
use web_template_go.Prelude.{[], Bool, not, Option, none, some, if◌then◌else◌, ◌||◌}
use web_template_go.Greeter.Trace.{Trace, info, write_line}
use web_template_go.Errors.{Error, Result, ok, err, message}
use web_template_go.Databases.{Connection, after_open, nothing, or_default, seconds, pos, ℤ}
use web_template_go.Text.{Bytes, bytes, same, trim_space}

pub record PostgresConfig : Type 0 where
  pub enabled : Bool
  pub source : Bytes
  pub max_open_conns : ℤ
  pub max_idle_conns : ℤ
  pub conn_max_lifetime : ℤ
  pub conn_max_idle_time : ℤ
  pub ping_timeout : ℤ
  pub prepare_stmt : Bool
  pub skip_default_transaction : Bool
  pub disable_nested_transaction : Bool
  pub table_prefix : Bytes
  pub singular_table : Bool

pub record NamingStrategy : Type 0 where
  pub table_prefix : Bytes
  pub singular_table : Bool

-- gorm.Config, as far as it is set
pub record GormConfig : Type 0 where
  pub prepare_stmt : Bool
  pub skip_default_transaction : Bool
  pub disable_nested_transaction : Bool
  pub naming_strategy : Option NamingStrategy

unfoldable pub gorm_config : PostgresConfig → GormConfig
gorm_config cfg = record {
  prepare_stmt = cfg.prepare_stmt;
  skip_default_transaction = cfg.skip_default_transaction;
  disable_nested_transaction = cfg.disable_nested_transaction;
  naming_strategy =
      if not (same cfg.table_prefix []) || cfg.singular_table
      then some (record { table_prefix = cfg.table_prefix; singular_table = cfg.singular_table })
      else none;
}

-- What is set on the pool of connections.
pub record PoolSettings : Type 0 where
  pub max_open_conns : ℤ
  pub max_idle_conns : ℤ
  pub conn_max_lifetime : ℤ
  pub conn_max_idle_time : ℤ

unfoldable pub pool_settings : PostgresConfig → PoolSettings
pool_settings cfg = record {
  max_open_conns = or_default (pos 20) cfg.max_open_conns;
  max_idle_conns = or_default (pos 10) cfg.max_idle_conns;
  conn_max_lifetime = or_default (seconds 1800) cfg.conn_max_lifetime;
  conn_max_idle_time = or_default (seconds 600) cfg.conn_max_idle_time;
}

unfoldable pub postgres_ping_timeout : PostgresConfig → ℤ
postgres_ping_timeout cfg = or_default (seconds 3) cfg.ping_timeout

-- gorm: Open, DB, the setters of the pool, Ping within a timeout, and Close. `C` is the client.
pub record PostgresDriver (C S : Type 0) : Type 0 where
  pub open_db : Bytes → GormConfig → Trace S → Result C × Trace S
  pub sql_db : C → Option Error
  pub configure : PoolSettings → C → Trace S → Trace S
  pub ping : ℤ → C → Trace S → Option Error × Trace S
  pub close : C → Trace S → Option Error × Trace S

module _ {C S : Type 0} (driver : PostgresDriver C S) where
  -- gdb.DB(), and the setters.
  unfoldable pub set_pool : PoolSettings → Option Error → C → Trace S → Result C × Trace S
  set_pool settings (some e) c t = (err e, t)
  set_pool settings none c t = (ok c, driver.configure settings c t)

  unfoldable pub open_pool : PoolSettings → Result C × Trace S → Result C × Trace S
  unfolding set_pool
  open_pool settings (err e, t) = (err e, t)
  open_pool settings (ok c, t) = set_pool settings (driver.sql_db c) c t

  unfoldable pub new_postgres_db : PostgresConfig → Trace S → Connection C S
  unfolding open_pool after_open nothing
  new_postgres_db cfg t =
      let source = trim_space cfg.source in
      if not cfg.enabled
      then (
        ok (none, nothing),
        write_line info (bytes "postgres disabled, skip initialization") none t,
      )
      else if same source []
      then (err (message (bytes "postgres.source is empty")), t)
      else after_open (driver.ping (postgres_ping_timeout cfg)) driver.close
          (bytes "postgres connected") (bytes "close postgres error: ")
          (open_pool (pool_settings cfg) (driver.open_db source (gorm_config cfg) t))
