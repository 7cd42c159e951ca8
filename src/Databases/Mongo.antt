-- ===== src/Databases/Mongo.antt =====
-- internal/pkg/dbx/mongodb.go
use web_template_go.Prelude.{[], Bool, not, Option, none, some, if◌then◌else◌, ◌||◌}
use web_template_go.Text.{Bytes, bytes, same, trim_space}
use web_template_go.Errors.{Error, Result, ok, err, message}
use web_template_go.Greeter.Trace.{Trace}
use web_template_go.Databases.{Connection, after_open, is_positive, nothing, or_default, seconds, ℤ}

pub record MongoConfig : Type 0 where
  pub enabled : Bool
  pub uri : Bytes
  pub connect_timeout : ℤ
  pub ping_timeout : ℤ
  pub min_pool_size : ℤ
  pub max_pool_size : ℤ
  pub server_selection_timeout : ℤ
  pub socket_timeout : ℤ
  pub username : Bytes
  pub password : Bytes
  pub auth_source : Bytes

pub record Credential : Type 0 where
  pub username : Bytes
  pub password : Bytes
  pub auth_source : Bytes

-- The client options of the MongoDB driver, as far as they are set.
pub record MongoOptions : Type 0 where
  pub uri : Bytes
  pub auth : Option Credential
  pub min_pool_size : Option ℤ
  pub max_pool_size : Option ℤ
  pub server_selection_timeout : Option ℤ
  pub socket_timeout : Option ℤ

-- if v > 0 { set(v) }
unfoldable pub if_positive : ℤ → Option ℤ
if_positive v = if is_positive v then some v else none

unfoldable pub mongo_options : MongoConfig → MongoOptions
mongo_options cfg = record {
  uri = cfg.uri;
  auth =
      if not (same cfg.username []) || not (same cfg.password [])
      then some (record {
        username = cfg.username;
        password = cfg.password;
        auth_source = cfg.auth_source;
      })
      else none;
  min_pool_size = if_positive cfg.min_pool_size;
  max_pool_size = if_positive cfg.max_pool_size;
  server_selection_timeout = if_positive cfg.server_selection_timeout;
  socket_timeout = if_positive cfg.socket_timeout;
}

-- The MongoDB driver: Connect and Ping within a timeout, and Disconnect.
pub record MongoDriver (C S : Type 0) : Type 0 where
  pub connect : ℤ → MongoOptions → Trace S → Result C × Trace S
  pub ping : ℤ → C → Trace S → Option Error × Trace S
  pub disconnect : C → Trace S → Option Error × Trace S

module _ {C S : Type 0} (driver : MongoDriver C S) where
  unfoldable pub new_mongo_client : MongoConfig → Trace S → Connection C S
  unfolding after_open nothing
  new_mongo_client cfg t =
      if not cfg.enabled
      then (ok (none, nothing), t)
      else if same (trim_space cfg.uri) []
      then (err (message (bytes "mongodb.uri is empty")), t)
      else after_open (driver.ping (or_default (seconds 3) cfg.ping_timeout)) driver.disconnect
          (bytes "mongodb connected") (bytes "close mongodb error: ")
          (driver.connect (or_default (seconds 5) cfg.connect_timeout) (mongo_options cfg) t)
