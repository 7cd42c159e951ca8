-- ===== src/Wire/Program.antt =====
-- wireApp with the constructors of the repository as its providers. The state is that of the metrics,
-- the variables of their package, beside the log and the outside.
pub mod Balance
pub mod App
use web_template_go.Prelude.{
  ℕ, zero, suc, ◌+◌, ◌-◌, ◌<◌, ◌≤◌, List, [], ◌∷◌, ◌++◌, Bool, true, false, not, ◌↔◌, map, Option,
  none, some, if◌then◌else◌, Bool-cases, Option-cases, sym, ap, ◌==◌, ◌∙◌, ◌≡◌, ◌≢◌, refl, ◌⊎◌, inl,
  inr, arith,
}
use web_template_go.Logging.{Logger}
use web_template_go.Errors.{Result, ok, err, Error}
use web_template_go.Databases.{nothing}
use web_template_go.Remote.{RemoteDriver, ServiceConfig, new_greeter_client}
use web_template_go.Greeter.Usecase.{GreeterEventPublisher, new_greeter_usecase}
use web_template_go.Databases.Postgres.{PostgresConfig, PostgresDriver, new_postgres_db}
use web_template_go.Greeter.Service.{GreeterService, new_greeter_service}
use web_template_go.Discovery.{KubernetesConfig, KubernetesDriver, new_kubernetes_registrar}
use web_template_go.Greeter.Trace.{Trace}
use web_template_go.Metrics.{Metrics, MetricsDriver}
use web_template_go.Servers.Start.{ServerConfig, Servers, Transports, started, other_servers}
use web_template_go.Databases.Redis.{RedisConfig, RedisDriver, new_redis_client}
use web_template_go.Servers.{ServerOption, new_grpc_server}
use web_template_go.Greeter.Repo.{
  EventClient, GreeterClient, new_greeter_event_publisher, new_greeter_repo,
}
use web_template_go.Databases.Mongo.{MongoConfig, MongoDriver, new_mongo_client}
use web_template_go.Messaging.{with_disconnect, Brokers, RabbitMqPublisher, new_rabbitmq_publisher}
use web_template_go.Wire.{Server, Providers, wire_app}

-- What wireApp is given: Config of internal/server, that of internal/data, and Enabled of the one of
-- tracing.
pub record AppConfig : Type 0 where
  pub servers : ServerConfig
  pub kubernetes : KubernetesConfig
  pub remote_greeter : ServiceConfig
  pub postgres : PostgresConfig
  pub redis : RedisConfig
  pub mongodb : MongoConfig
  pub tracing_enabled : Bool

-- The libraries behind the constructors, and a RabbitMQ publisher as the greeter uses it.
pub record Drivers (O K R C B M P D N E MP T S : Type 0) : Type 0 where
  pub kubernetes : KubernetesDriver O K R S
  pub remote : RemoteDriver C S
  pub greeter_client : C → GreeterClient S
  pub brokers : Brokers B M T
  pub event_client : RabbitMqPublisher B → EventClient S
  pub postgres : PostgresDriver P S
  pub redis : RedisDriver D S
  pub mongo : MongoDriver N S
  pub metrics : MetricsDriver E MP S
  pub transports : Transports S

-- The options of newApp that the program computes, and the clients that the system service probes.
pub record WebApp (R P D N S : Type 0) : Type 0 where
  pub logger : Logger
  pub registrar : Option R
  pub servers : Servers S
  pub running : List Server
  pub postgres : Option P
  pub redis : Option D
  pub mongo : Option N

-- The state of the process: the variables of the metrics package, the log with the outside, and the
-- RabbitMQ publisher, an object that the process shares, with the connections to RabbitMQ, which no
-- other library touches.
pub record Process (E MP B T S : Type 0) : Type 0 where
  pub metrics : Metrics E MP
  pub trace : Trace S
  pub publisher : Option (RabbitMqPublisher B)
  pub brokers : T

-- The publisher that there is, and the connections to RabbitMQ with the log.
unfoldable pub held :
    {E MP B T S : Type 0} → Process E MP B T S → Option (RabbitMqPublisher B) × Trace T
held s = (s.publisher, record { outside = s.brokers; log = s.trace.log })

unfoldable pub hold :
    {E MP B T S : Type 0}
    → Process E MP B T S
    → Option (RabbitMqPublisher B) × Trace T
    → Process E MP B T S
hold s (publisher, t) = record s {
  trace = record { outside = s.trace.outside; log = t.log };
  publisher = publisher;
  brokers = t.outside;
}

-- NewRabbitMQPublisher in that state: its cleanup finds the publisher as it then is.
unfoldable pub with_publisher :
    {E MP B T S A : Type 0}
    → Process E MP B T S
    → Result (A × (Option (RabbitMqPublisher B) × Trace T → Option (RabbitMqPublisher B) × Trace T))
      × Option (RabbitMqPublisher B)
      × Trace T
    → Result (A × (Process E MP B T S → Process E MP B T S)) × Process E MP B T S
unfolding held hold
with_publisher s (err e, q, t) = (err e, hold s (q, t))
with_publisher s (ok (a, cleanup), q, t) = (ok (a, λ u. hold u (cleanup (held u))), hold s (q, t))

-- A call that does not touch the metrics, in the state that has them.
unfoldable pub beside :
    {E MP B T S A : Type 0}
    → Process E MP B T S
    → Result (A × (Trace S → Trace S)) × Trace S
    → Result (A × (Process E MP B T S → Process E MP B T S)) × Process E MP B T S
beside s (err e, t) = (err e, record s { trace = t })
beside s (ok (a, cleanup), t) =
    (ok (a, λ u. record u { trace = cleanup u.trace }), record s { trace = t })

-- data.NewGreeterEventPublisher, which has no error and a cleanup that does nothing.
unfoldable pub without_error :
    {S : Type 0}
    → GreeterEventPublisher S × Trace S
    → Result (GreeterEventPublisher S × (Trace S → Trace S)) × Trace S
unfolding nothing
without_error (publisher, t) = (ok (publisher, nothing), t)

-- A pointer that may be nil, as an interface that may be nil.
unfoldable pub view_of : {A B : Type 0} → (A → B) → Option A → Option B
view_of view none = none
view_of view (some p) = some (view p)

module _ {O K R C B M P D N E MP T S : Type 0} (drivers : Drivers O K R C B M P D N E MP T S)
    (cfg : AppConfig) (logger : Logger) where
  -- NewGreeterRepo, NewGreeterUsecase and NewGreeterService, with which the gRPC server is made.
  unfoldable pub greeter_service : Option C → GreeterEventPublisher S → GreeterService S
  unfolding view_of
  greeter_service client publisher = new_greeter_service (
      new_greeter_usecase (new_greeter_repo (view_of drivers.greeter_client client))
        (some publisher))

  unfoldable pub make_grpc :
      Option C
      → GreeterEventPublisher S
      → Process E MP B T S
      → (GreeterService S × Option (List ServerOption)) × Process E MP B T S
  unfolding greeter_service
  make_grpc client publisher s =
      let (grpc, m, t) =
        new_grpc_server drivers.metrics drivers.transports.meters (some cfg.servers.grpc)
          (some cfg.servers.ratelimit_enabled) (some cfg.tracing_enabled) (s.metrics, s.trace) in
      ((greeter_service client publisher, grpc), record s { metrics = m; trace = t })

  -- From NewSystemService to newApp.
  unfoldable pub make_app :
      Option R
      → GreeterService S × Option (List ServerOption)
      → Option P
      → Option D
      → Option N
      → Process E MP B T S
      → WebApp R P D N S × Process E MP B T S
  make_app registrar (greeter, grpc) db redis mongo s =
      let (servers, m, t) =
        other_servers drivers.metrics drivers.transports cfg.servers (some cfg.tracing_enabled)
          greeter grpc (s.metrics, s.trace) in
      (
        record {
          logger = logger;
          registrar = registrar;
          servers = servers;
          running = started servers;
          postgres = db;
          redis = redis;
          mongo = mongo;
        },
        record s { metrics = m; trace = t },
      )

  unfoldable pub app_providers :
      Providers
        (Process E MP B T S)
        (Option R)
        (Option C)
        (Option (RabbitMqPublisher B))
        (GreeterEventPublisher S)
        (GreeterService S × Option (List ServerOption))
        (Option P)
        (Option D)
        (Option N)
        (WebApp R P D N S)
  unfolding beside with_publisher without_error view_of make_grpc make_app
  app_providers = record {
    new_kubernetes_registrar =
        λ s. beside s (new_kubernetes_registrar drivers.kubernetes cfg.kubernetes s.trace);
    new_greeter_client =
        λ s. beside s (new_greeter_client drivers.remote cfg.remote_greeter s.trace);
    new_rabbitmq_publisher = λ s. with_publisher s (
        with_disconnect drivers.brokers s.publisher
          (new_rabbitmq_publisher drivers.brokers cfg.servers.rabbitmq (held s).1));
    new_greeter_event_publisher = λ r s.
        beside s
          (without_error (new_greeter_event_publisher (view_of drivers.event_client r) s.trace));
    new_grpc_server = make_grpc;
    new_postgres_db = λ s. beside s (new_postgres_db drivers.postgres cfg.postgres s.trace);
    new_redis_client = λ s. beside s (new_redis_client drivers.redis cfg.redis s.trace);
    new_mongo_client = λ s. beside s (new_mongo_client drivers.mongo cfg.mongodb s.trace);
    assemble = make_app;
  }

  unfoldable pub wire_program :
      Process E MP B T S
      → Result (WebApp R P D N S × (Process E MP B T S → Process E MP B T S)) × Process E MP B T S
  unfolding app_providers
  wire_program s = wire_app app_providers s
