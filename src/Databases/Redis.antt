-- ===== src/Databases/Redis.antt =====
-- internal/pkg/dbx/redis.go
use web_template_go.Prelude.{[], ◌++◌, Bool, not, Option, none, if◌then◌else◌}
use web_template_go.Errors.{Error, Result, ok, err, message}
use web_template_go.Greeter.Trace.{Trace, info, write_line}
use web_template_go.Text.{Bytes, bytes, same, trim_space}
use web_template_go.Databases.{Connection, after_open, nothing, or_default, seconds, pos, ℤ}

pub record RedisConfig : Type 0 where
  pub enabled : Bool
  pub network : Bytes
  pub addr : Bytes
  pub read_timeout : ℤ
  pub write_timeout : ℤ
  pub username : Bytes
  pub password : Bytes
  pub db : ℤ
  pub pool_size : ℤ
  pub dial_timeout : ℤ
  pub min_idle_conns : ℤ
  pub max_retries : ℤ
  pub pool_timeout : ℤ
  pub idle_timeout : ℤ
  pub max_conn_age : ℤ

-- redis.Options, as far as they are set; 0 lets the library choose.
pub record RedisOptions : Type 0 where
  pub network : Bytes
  pub addr : Bytes
  pub username : Bytes
  pub password : Bytes
  pub db : ℤ
  pub pool_size : ℤ
  pub min_idle_conns : ℤ
  pub max_retries : ℤ
  pub dial_timeout : ℤ
  pub pool_timeout : ℤ
  pub conn_max_idle_time : ℤ
  pub conn_max_lifetime : ℤ
  pub read_timeout : ℤ
  pub write_timeout : ℤ

unfoldable pub redis_options : RedisConfig → RedisOptions
redis_options cfg = record {
  network = if same cfg.network [] then bytes "tcp" else cfg.network;
  addr = cfg.addr;
  username = cfg.username;
  password = cfg.password;
  db = cfg.db;
  pool_size = or_default (pos 0) cfg.pool_size;
  min_idle_conns = or_default (pos 0) cfg.min_idle_conns;
  max_retries = or_default (pos 0) cfg.max_retries;
  dial_timeout = or_default (pos 0) cfg.dial_timeout;
  pool_timeout = or_default (pos 0) cfg.pool_timeout;
  conn_max_idle_time = or_default (pos 0) cfg.idle_timeout;
  conn_max_lifetime = or_default (pos 0) cfg.max_conn_age;
  read_timeout = or_default (pos 0) cfg.read_timeout;
  write_timeout = or_default (pos 0) cfg.write_timeout;
}

-- go-redis: NewClient, Ping within a timeout, and Close.
pub record RedisDriver (C S : Type 0) : Type 0 where
  pub new_client : RedisOptions → Trace S → C × Trace S
  pub ping : ℤ → C → Trace S → Option Error × Trace S
  pub close : C → Trace S → Option Error × Trace S

module _ {C S : Type 0} (driver : RedisDriver C S) where
  unfoldable pub opened : C × Trace S → Result C × Trace S
  opened (c, t) = (ok c, t)

  unfoldable pub new_redis_client : RedisConfig → Trace S → Connection C S
  unfolding after_open nothing opened
  new_redis_client cfg t =
      if not cfg.enabled
      then (
        ok (none, nothing),
        write_line info (bytes "redis disabled, skip initialization") none t,
      )
      else if same (trim_space cfg.addr) []
      then (err (message (bytes "redis.addr is empty")), t)
      else after_open (driver.ping (seconds 5)) driver.close
          (bytes "redis connected: addr=" ++ cfg.addr) (bytes "close redis error: ")
          (opened (driver.new_client (redis_options cfg) t))
