-- ===== src/Main.antt =====
-- main and loadBootstrap of cmd/server/main.go.
pub mod Closed
pub mod Load
use web_template_go.Servers.Start.{ServerConfig}
use web_template_go.Databases.Postgres.{PostgresConfig}
use web_template_go.Databases.Mongo.{MongoConfig}
use web_template_go.Remote.{ServiceConfig}
use web_template_go.Databases.Redis.{RedisConfig}
use web_template_go.Discovery.{KubernetesConfig}
use web_template_go.Prelude.{
  ℕ, zero, suc, ◌+◌, ◌-◌, ◌<◌, ◌≤◌, List, [], ◌∷◌, ◌++◌, Bool, true, false, not, ◌↔◌, map, Option,
  none, some, if◌then◌else◌, Bool-cases, Option-cases, sym, ap, ◌==◌, ◌∙◌, ◌≡◌, ◌≢◌, refl, ◌⊎◌, inl,
  inr, arith,
}
use web_template_go.Greeter.Trace.{Trace}
use web_template_go.FilePath.Split.{join_path}
use web_template_go.Greeter.Usecase.{GreeterEventPublisher}
use web_template_go.Scaffold.Disk.{Io, World, lift, read_file, stat, ◌>>=◌}
use web_template_go.Errors.{Error, Result, ok, err}
use web_template_go.Text.{Bytes, Unicode, bytes}
use web_template_go.Metrics.{MetricsDriver, init_metrics, not_initialized}
use web_template_go.Logging.{Options, new_with_options, Logger}
use web_template_go.Tracing.{TracingConfig, TracingDriver, init_tracing}
use web_template_go.Wire.Program.{AppConfig, Drivers, Process, WebApp, beside, wire_program}

-- Config of internal/data
pub record DataConfig : Type 0 where
  pub discovery : KubernetesConfig
  pub postgres : PostgresConfig
  pub redis : RedisConfig
  pub mongodb : MongoConfig
  pub remote_grpc : ServiceConfig

-- conf.Bootstrap
pub record Bootstrap (F : Type 0) : Type 0 where
  pub server : ServerConfig
  pub data_config : DataConfig
  pub logger : Options
  pub tracing : TracingConfig F

-- What main hands to wireApp.
unfoldable pub app_config : {F : Type 0} → Bootstrap F → AppConfig
app_config bc = record {
  servers = bc.server;
  kubernetes = bc.data_config.discovery;
  remote_greeter = bc.data_config.remote_grpc;
  postgres = bc.data_config.postgres;
  redis = bc.data_config.redis;
  mongodb = bc.data_config.mongodb;
  tracing_enabled = bc.tracing.enabled;
}

-- loadBootstrap; yaml.Unmarshal is an argument.
unfoldable pub load_bootstrap :
    {F : Type 0} → (Bytes → Result (Bootstrap F)) → Bytes → Io (Bootstrap F)
load_bootstrap unmarshal conf_path = do
  is_dir ← stat conf_path
  content ←
      read_file (if is_dir then join_path (conf_path ∷ bytes "config.yaml" ∷ []) else conf_path)
  lift (unmarshal content)

-- How main ends: it returns, or panics.
pub data Exit : Type 0 where
  returned : Exit
  panicked : Error → Exit

module _ {S : Type 0} where
  unfoldable pub exit_of : Option Error × S → Exit × S
  exit_of (none, s) = (returned, s)
  exit_of (some e, s) = (panicked e, s)

  -- `x, cleanup, err := ...; if err != nil { panic(err) }; defer cleanup()`, then the rest. What is
  -- deferred runs at the end of main, be it a panic.
  unfoldable pub deferring : {A : Type 0} → Result (A × (S → S)) × S → (A → S → Exit × S) → Exit × S
  deferring (err e, s) rest = (panicked e, s)
  deferring (ok (a, cleanup), s) rest = let (exit, u) = rest a s in (exit, cleanup u)

  -- A constructor that returns its cleanup alone.
  unfoldable pub cleanup_only : Result (S → S) × S → Result (Unit {0} × (S → S)) × S
  cleanup_only (err e, s) = (err e, s)
  cleanup_only (ok cleanup, s) = (ok (tt, cleanup), s)

-- The libraries of the whole program, the name and the version that the build sets, and app.Run.
pub record Program (F TR X TP O K R C B M P D N E MP T S : Type 0) : Type 0 where
  pub tracing : TracingDriver F TR X TP S
  pub drivers : Drivers O K R C B M P D N E MP T S
  pub tables : Unicode
  pub name : Bytes
  pub version : Bytes
  pub run_app : WebApp R P D N S → Process E MP B T S → Option Error × Process E MP B T S

module _ {F TR X TP O K R C B M P D N E MP T S : Type 0}
    (program : Program F TR X TP O K R C B M P D N E MP T S) where
  -- tracingx.Init
  unfoldable pub start_tracing :
      TracingConfig F
      → Process E MP B T S
      → Result (Unit {0} × (Process E MP B T S → Process E MP B T S)) × Process E MP B T S
  unfolding beside cleanup_only
  start_tracing cfg s = beside s (
      cleanup_only (
        init_tracing program.tracing program.tables (some cfg) program.name program.version
          s.trace))

  -- metricsx.Init
  unfoldable pub start_metrics :
      Process E MP B T S
      → Result (Unit {0} × (Process E MP B T S → Process E MP B T S)) × Process E MP B T S
  unfolding beside cleanup_only
  start_metrics s =
      let (r, m, t) = init_metrics program.drivers.metrics (s.metrics, s.trace) in
      beside (record s { metrics = m }) (cleanup_only (r, t))

  -- main behind loadBootstrap and applyEnvOverrides.
  unfoldable pub serve_app : Bootstrap F → Process E MP B T S → Exit × Process E MP B T S
  unfolding deferring start_tracing start_metrics exit_of
  serve_app bc s =
      let logger = new_with_options program.tables bc.logger in
      deferring (start_tracing bc.tracing s) λ _ s. deferring (start_metrics s) λ _ s.
        deferring (wire_program program.drivers (app_config bc) logger s)
          λ app s. exit_of (program.run_app app s)

  -- main behind the call of loadBootstrap; applyEnvOverrides, which no file of the repository
  -- defines, is an argument.
  unfoldable pub after_load :
      (Bootstrap F → Bootstrap F)
      → Result (Bootstrap F)
      → Process E MP B T S
      → Exit × Process E MP B T S
  unfolding serve_app
  after_load overrides (err e) s = (panicked e, s)
  after_load overrides (ok bc) s = serve_app (overrides bc) s

  -- main, at the start of the process.
  unfoldable pub run_main :
      (Bytes → Result (Bootstrap F))
      → (Bootstrap F → Bootstrap F)
      → Bytes
      → World
      → Trace S
      → T
      → Exit × Process E MP B T S
  unfolding after_load
  run_main unmarshal overrides flagconf w t u =
      after_load overrides (load_bootstrap unmarshal flagconf w).0
        (record { metrics = not_initialized; trace = t; publisher = none; brokers = u })
