-- ===== src/Servers/Start/Quiet.antt =====
-- Making the servers opens nothing, once the metrics have been initialised.
use web_template_go.Remote.{with_requests, with_seconds}
use web_template_go.Messaging.{RabbitMqConfig}
use web_template_go.Metrics.Once.{init_once_again}
use web_template_go.Greeter.Trace.{Trace, write_line}
use web_template_go.Greeter.Service.{GreeterService}
use web_template_go.Remote.Balance.{add_option-outside}
use web_template_go.Prelude.{
  Bool-cases, List, [], Bool, true, Option, none, some, ◌∙◌, ◌≡◌, refl, inl, inr, ◌||◌,
}
use web_template_go.Servers.Middleware.{
  Meters, common_middlewares, server_metrics_options, warn_metrics,
}
use web_template_go.Errors.{Error, Result, ok, err}
use web_template_go.Servers.Start.{ServerConfig, Transports, other_servers}
use web_template_go.Text.{same, trim_space}
use web_template_go.Servers.Queues.{
  MqttConfig, RabbitMqServer, after_register, disabled, lacks_setting, new_mqtt_server,
  new_rabbitmq_server, rabbitmq_server,
}
use web_template_go.Servers.{NetConfig, ServerOption, new_grpc_server, new_http_server}
use web_template_go.Metrics.{Metrics, MetricsDriver, init_metrics, init_result}

module _ {S : Type 0} where
  warn_metrics-outside :
      {A : Type 0} (r : Result A) (t : Trace S) → (warn_metrics r t).outside ≡ t.outside
  unfolding warn_metrics write_line
  warn_metrics-outside (ok a) t = refl
  warn_metrics-outside (err e) t = refl

  server_metrics_options-outside :
      (meters : Meters) (t : Trace S) → (server_metrics_options meters t).1.outside ≡ t.outside
  unfolding server_metrics_options
  server_metrics_options-outside meters t =
      add_option-outside _ with_seconds meters.seconds_histogram _
      ∙ add_option-outside _ with_requests meters.requests_counter ([], t)

-- What a constructor of a server keeps: the variables of the metrics, and the outside.
abbrev pub IsStill : {A E P S : Type 0} → Metrics E P → Trace S → A × Metrics E P × Trace S → Type 0
IsStill m t r = (r.1 ≡ m) × (r.2.outside ≡ t.outside)

module _ {E P S : Type 0} (metrics : MetricsDriver E P S) (meters : Meters)
    (limit tracing : Option Bool) (m : Metrics E P) (t : Trace S) (done : m.done ≡ true) where
  common_middlewares-IsStill : IsStill m t (common_middlewares metrics meters limit tracing (m, t))
  unfolding common_middlewares init_metrics
  common_middlewares-IsStill = rw (init_once_again metrics (m, t) done) (
    refl,
    server_metrics_options-outside meters _ ∙ warn_metrics-outside (init_result metrics m) t,
  )

  pub new_grpc_server-IsStill :
      (c : NetConfig) → IsStill m t (new_grpc_server metrics meters (some c) limit tracing (m, t))
  unfolding new_grpc_server write_line
  new_grpc_server-IsStill c = elim (Bool-cases c.enabled) [
    | inl e ↦ rw (new_grpc_server, e) common_middlewares-IsStill
    | inr e ↦ rw (new_grpc_server, e) (refl, refl)
  ]

  pub new_http_server-IsStill :
      (c : NetConfig) → IsStill m t (new_http_server metrics meters (some c) limit tracing (m, t))
  unfolding new_http_server write_line
  new_http_server-IsStill c = elim (Bool-cases c.enabled) [
    | inl e ↦ rw (new_http_server, e) common_middlewares-IsStill
    | inr e ↦ rw (new_http_server, e) (refl, refl)
  ]

module _ {S : Type 0} where
  new_mqtt_server-outside :
      (c : MqttConfig) (t : Trace S) → (new_mqtt_server (some c) t).1.outside ≡ t.outside
  unfolding new_mqtt_server disabled write_line
  new_mqtt_server-outside c t = elim (Bool-cases c.enabled) [
    | inr e ↦ rw (new_mqtt_server, e) refl
    | inl e ↦ elim (Bool-cases (same (trim_space c.addr) [] || same (trim_space c.topic) [])) [
      | inl f ↦ rw (new_mqtt_server, e, f) refl
      | inr f ↦ rw (new_mqtt_server, e, f) refl
    ]
  ]

  after_register-outside :
      (srv : RabbitMqServer) (r : Option Error × Trace S)
      → (after_register srv r).1.outside ≡ r.1.outside
  unfolding after_register write_line
  after_register-outside srv (none, t) = refl
  after_register-outside srv (some e, t) = refl

  new_rabbitmq_server-outside :
      (register : RabbitMqServer → Trace S → Option Error × Trace S) (c : RabbitMqConfig)
      (t : Trace S)
      → ((srv : RabbitMqServer) (u : Trace S) → (register srv u).1.outside ≡ u.outside)
      → (new_rabbitmq_server register (some c) t).1.outside ≡ t.outside
  unfolding new_rabbitmq_server disabled write_line
  new_rabbitmq_server-outside register c t h = elim (Bool-cases c.enabled) [
    | inr e ↦ rw (new_rabbitmq_server, e) refl
    | inl e ↦ elim (Bool-cases (lacks_setting c)) [
      | inl f ↦ rw (new_rabbitmq_server, e, f) refl
      | inr f ↦
          rw (new_rabbitmq_server, e, f)
            (after_register-outside (rabbitmq_server c) (register (rabbitmq_server c) t)
              ∙ h (rabbitmq_server c) t)
    ]
  ]

pub other_servers-IsStill :
    {E P S : Type 0} (metrics : MetricsDriver E P S) (transports : Transports S)
    (cfg : ServerConfig) (tracing : Option Bool) (greeter : GreeterService S)
    (grpc : Option (List ServerOption)) (m : Metrics E P) (t : Trace S)
    → m.done ≡ true
    → ((srv : RabbitMqServer) (u : Trace S) → (transports.register srv u).1.outside ≡ u.outside)
    → IsStill m t (other_servers metrics transports cfg tracing greeter grpc (m, t))
unfolding other_servers
other_servers-IsStill metrics transports cfg tracing greeter grpc m t done h =
    let (same_metrics, same_outside) =
      new_http_server-IsStill metrics transports.meters (some cfg.ratelimit_enabled) tracing m t
        done cfg.http in
    (
      same_metrics,
      new_rabbitmq_server-outside transports.register cfg.rabbitmq _ h
          ∙ (new_mqtt_server-outside cfg.mqtt _ ∙ same_outside),
    )
