-- ===== src/Tests/Connections.antt =====
-- The database clients where the outside counts what is open.
use web_template_go.Prelude.{ℕ, suc, ◌-◌, [], true, false, Option, none, some, ◌≡◌, refl, arith}
use web_template_go.Databases.Redis.{RedisConfig, RedisDriver, opened}
use web_template_go.Databases.{after_open, after_ping, ℤ, pos, negsuc}
use web_template_go.Errors.{Error, Result, ok, err, message}
use web_template_go.Databases.Balance.{IsMongoDriver, IsPostgresDriver, IsRedisDriver, Opened}
use web_template_go.Greeter.Trace.{Trace}
use web_template_go.Databases.Postgres.{
  PostgresConfig, PostgresDriver, new_postgres_db, open_pool, set_pool,
}
use web_template_go.Text.{
  ascii_space, bytes, has_prefix, same, skip_space, space_width, space_width_back, trim_space,
}
use web_template_go.Databases.Mongo.{MongoConfig, MongoDriver}

abbrev down : Error
down = message (bytes "connection refused")

abbrev opens : Trace ℕ → Result (Unit {0}) × Trace ℕ
opens t = (ok tt, record t { outside = suc t.outside })

abbrev closes : Unit {0} → Trace ℕ → Option Error × Trace ℕ
closes c t = (none, record t { outside = t.outside - 1 })

abbrev no_answer : ℤ → Unit {0} → Trace ℕ → Option Error × Trace ℕ
no_answer timeout c t = (some down, t)

abbrev quiet : Trace ℕ
quiet = record { outside = 4; log = [] }

opens-Opened : (t : Trace ℕ) → Opened closes t (opens t)
opens-Opened t v h = omega (arith, h)

abbrev gorm : PostgresDriver Unit ℕ
gorm = record {
  open_db = λ source cfg t. opens t;
  sql_db = λ c. none;
  configure = λ p c t. t;
  ping = no_answer;
  close = closes;
}

gorm-IsPostgresDriver : IsPostgresDriver gorm
gorm-IsPostgresDriver = record {
  opens = λ source cfg t. opens-Opened t;
  pooled = λ source cfg t u c e made broken. absurd (ground (arith, broken));
  configures = λ p c t. refl;
  pings = λ timeout c t. refl;
}

abbrev pub postgres_config : PostgresConfig
postgres_config = record {
  enabled = true;
  source = bytes "host=db";
  max_open_conns = pos 0;
  max_idle_conns = negsuc 0;
  conn_max_lifetime = pos 0;
  conn_max_idle_time = pos 0;
  ping_timeout = pos 0;
  prepare_stmt = false;
  skip_default_transaction = false;
  disable_nested_transaction = false;
  table_prefix = [];
  singular_table = false;
}

-- PostgreSQL does not answer, and the client is closed again.
postgres_down :
    ((new_postgres_db gorm postgres_config quiet).0 ≡ err down)
    × ((new_postgres_db gorm postgres_config quiet).1.outside ≡ 4)
unfolding new_postgres_db open_pool set_pool after_open after_ping bytes same trim_space ascii_space
    skip_space space_width space_width_back has_prefix
postgres_down = (refl, refl)

abbrev go_redis : RedisDriver Unit ℕ
go_redis = record {
  new_client = λ o t. (tt, record t { outside = suc t.outside });
  ping = λ timeout c t. (none, t);
  close = closes;
}

go_redis-IsRedisDriver : IsRedisDriver go_redis
unfolding opened
go_redis-IsRedisDriver = record { opens = λ o t. opens-Opened t; pings = λ timeout c t. refl }

abbrev pub redis_config : RedisConfig
redis_config = record {
  enabled = true;
  network = [];
  addr = bytes "redis:6379";
  read_timeout = pos 0;
  write_timeout = pos 0;
  username = [];
  password = [];
  db = pos 0;
  pool_size = pos 20;
  dial_timeout = pos 0;
  min_idle_conns = pos 0;
  max_retries = pos 0;
  pool_timeout = pos 0;
  idle_timeout = pos 0;
  max_conn_age = pos 0;
}

abbrev mongo : MongoDriver Unit ℕ
mongo = record { connect = λ timeout o t. opens t; ping = no_answer; disconnect = closes }

mongo-IsMongoDriver : IsMongoDriver mongo
mongo-IsMongoDriver = record { opens = λ timeout o t. opens-Opened t; pings = λ timeout c t. refl }

abbrev pub mongo_config : MongoConfig
mongo_config = record {
  enabled = true;
  uri = bytes "mongodb://db";
  connect_timeout = pos 0;
  ping_timeout = pos 0;
  min_pool_size = pos 0;
  max_pool_size = pos 0;
  server_selection_timeout = pos 0;
  socket_timeout = pos 0;
  username = [];
  password = [];
  auth_source = [];
}
