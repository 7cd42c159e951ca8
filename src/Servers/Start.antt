-- ===== src/Servers/Start.antt =====
-- The five servers in the order in which wireApp of cmd/server/wire_gen.go makes them, and what
-- newApp takes of them.
pub mod Presence
pub mod Quiet
use web_template_go.Prelude.{
  ℕ, zero, suc, ◌+◌, ◌-◌, ◌<◌, ◌≤◌, List, [], ◌∷◌, ◌++◌, Bool, true, false, not, ◌↔◌, map, Option,
  none, some, if◌then◌else◌, Bool-cases, Option-cases, sym, ap, ◌==◌, ◌∙◌, ◌≡◌, ◌≢◌, refl, ◌⊎◌, inl,
  inr, arith,
}
use web_template_go.Greeter.Service.{GreeterService, WebsocketServer}
use web_template_go.Servers.Middleware.{Meters}
use web_template_go.Errors.{Error, ok, err, Result}
use web_template_go.Servers.Queues.{
  MqttConfig, MqttServer, RabbitMqServer, WebsocketConfig, new_websocket_server, new_mqtt_server,
  new_rabbitmq_server,
}
use web_template_go.Text.{Bytes, is_some}
use web_template_go.Servers.{NetConfig, ServerOption, new_grpc_server, new_http_server}
use web_template_go.Metrics.{Metrics, MetricsDriver}
use web_template_go.Greeter.Trace.{Trace}
use web_template_go.Messaging.{RabbitMqConfig}
use web_template_go.Wire.{Server, app_servers}

-- Config of internal/server/config.go; of the middleware configuration, RateLimitEnabled.
pub record ServerConfig : Type 0 where
  pub http : NetConfig
  pub grpc : NetConfig
  pub ratelimit_enabled : Bool
  pub websocket : WebsocketConfig
  pub mqtt : MqttConfig
  pub rabbitmq : RabbitMqConfig

-- The libraries behind the servers.
pub record Transports (S : Type 0) : Type 0 where
  pub meters : Meters
  pub new_websocket : Bytes → Bytes → WebsocketServer S
  pub register : RabbitMqServer → Trace S → Option Error × Trace S

pub record Servers (S : Type 0) : Type 0 where
  pub grpc : Option (List ServerOption)
  pub http : Option (List ServerOption)
  pub websocket : Option (WebsocketServer S)
  pub mqtt : Option MqttServer
  pub rabbitmq : Option RabbitMqServer
  pub greeter : GreeterService S

module _ {E P S : Type 0} (metrics : MetricsDriver E P S) (transports : Transports S) where
  -- The servers behind the gRPC server. They share the service with it.
  unfoldable pub other_servers :
      ServerConfig
      → Option Bool
      → GreeterService S
      → Option (List ServerOption)
      → Metrics E P × Trace S
      → Servers S × Metrics E P × Trace S
  unfolding new_http_server new_websocket_server new_mqtt_server new_rabbitmq_server
  other_servers cfg tracing greeter grpc s =
      let (http, m2, t2) =
        new_http_server metrics transports.meters (some cfg.http) (some cfg.ratelimit_enabled)
          tracing s in
      let (ws, greeter') =
        new_websocket_server transports.new_websocket (some cfg.websocket) greeter in
      let (mqtt, t3) = new_mqtt_server (some cfg.mqtt) t2 in
      let (rabbitmq, t4) = new_rabbitmq_server transports.register (some cfg.rabbitmq) t3 in
      (
        record {
          grpc = grpc;
          http = http;
          websocket = ws;
          mqtt = mqtt;
          rabbitmq = rabbitmq;
          greeter = greeter';
        },
        m2,
        t4,
      )

-- The servers that newApp takes, which are those that are not nil.
unfoldable pub started : {S : Type 0} → Servers S → List Server
started s =
    app_servers (is_some s.grpc) (is_some s.http) (is_some s.websocket) (is_some s.mqtt)
      (is_some s.rabbitmq)
