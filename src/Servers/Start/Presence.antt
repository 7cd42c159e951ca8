-- ===== src/Servers/Start/Presence.antt =====
-- Which servers run, and that they share the service.
use web_template_go.Greeter.Usecase.{GreeterUsecase}
use web_template_go.Messaging.{RabbitMqConfig}
use web_template_go.Greeter.Service.{
  GreeterService, WebsocketServer, set_websocket_server, new_greeter_service, on_chat_message,
  broadcast_to,
}
use web_template_go.Errors.{Error}
use web_template_go.Servers.Queues.{
  lacks_setting, MqttConfig, RabbitMqServer, WebsocketConfig, after_register, disabled,
  new_mqtt_server, new_rabbitmq_server, new_websocket_server, rabbitmq_server,
}
use web_template_go.Servers.Start.{ServerConfig, Transports, started, other_servers}
use web_template_go.Metrics.{Metrics, MetricsDriver}
use web_template_go.Prelude.{
  Bool-cases, List, [], ◌∷◌, ◌++◌, Bool, true, not, Option, none, some, if◌then◌else◌, sym, ap, ◌∙◌,
  ◌≡◌, refl, inl, inr, ◌&&◌, ◌||◌, false,
}
use web_template_go.Greeter.Trace.{Trace}
use web_template_go.Servers.Middleware.{Meters}
use web_template_go.Servers.{NetConfig, new_grpc_server, new_http_server, ServerOption}
use web_template_go.Text.{is_some, same, trim_space, Bytes}
use web_template_go.Wire.{Server, app_servers, grpc, http, websocket, mqtt, rabbitmq}
use web_template_go.Servers.Middleware.Order.{keep}

-- A setting that is more than white space.
abbrev pub has_text : Bytes → Bool
has_text s = not (same (trim_space s) [])

not_or : (a b : Bool) → not (a || b) ≡ (not a && not b)
not_or true b = refl
not_or false b = refl

-- NewRabbitMQServer needs four settings.
not-lacks_setting :
    (c : RabbitMqConfig)
    → not (lacks_setting c)
      ≡ (has_text c.addr && has_text c.exchange && has_text c.routing_key && has_text c.queue)
unfolding lacks_setting
not-lacks_setting c = simp (not_or)

-- The servers that a configuration asks for with all settings that they need. `registers` tells
-- whether the RabbitMQ library takes the subscriber.
abbrev pub is_wanted : ServerConfig → Bool → Server → Bool
is_wanted cfg registers grpc = cfg.grpc.enabled
is_wanted cfg registers http = cfg.http.enabled
is_wanted cfg registers websocket =
    cfg.websocket.enabled && (has_text cfg.websocket.addr && has_text cfg.websocket.path)
is_wanted cfg registers mqtt =
    cfg.mqtt.enabled && (has_text cfg.mqtt.addr && has_text cfg.mqtt.topic)
is_wanted cfg registers rabbitmq =
    cfg.rabbitmq.enabled
    && (has_text cfg.rabbitmq.addr
        && has_text cfg.rabbitmq.exchange
        && has_text cfg.rabbitmq.routing_key
        && has_text cfg.rabbitmq.queue)
    && registers

keep-append_one :
    {A : Type 0} (test : A → Bool) (x : A) (xs : List A)
    → keep test (xs ++ x ∷ []) ≡ (if test x then keep test xs ++ x ∷ [] else keep test xs)
unfolding keep
keep-append_one test x [] = refl
keep-append_one test x (y ∷ xs) = elim (Bool-cases (test y)) [
  | inl e ↦ elim (Bool-cases (test x)) [
    | inl f ↦ rw (e, keep-append_one test x xs, f) refl
    | inr f ↦ rw (e, keep-append_one test x xs, f) refl
  ]
  | inr e ↦ rw (e, keep-append_one test x xs) refl
]

keep-append_last :
    {A : Type 0} (test : A → Bool) (x : A) (xs ys : List A)
    → keep test xs ≡ ys
    → keep test (xs ++ x ∷ []) ≡ (if test x then ys ++ x ∷ [] else ys)
keep-append_last test x xs ys e =
    keep-append_one test x xs ∙ ap (λ zs. if test x then zs ++ x ∷ [] else zs) e

-- newApp keeps the order of its arguments.
app_servers-keep :
    (test : Server → Bool)
    → app_servers (test grpc) (test http) (test websocket) (test mqtt) (test rabbitmq)
      ≡ keep test (grpc ∷ http ∷ websocket ∷ mqtt ∷ rabbitmq ∷ [])
unfolding app_servers
app_servers-keep test = sym (
    keep-append_last test rabbitmq (grpc ∷ http ∷ websocket ∷ mqtt ∷ []) _ (
      keep-append_last test mqtt (grpc ∷ http ∷ websocket ∷ []) _ (
        keep-append_last test websocket (grpc ∷ http ∷ []) _ (
          keep-append_last test http (grpc ∷ []) _
            (keep-append_last test grpc [] [] (unfold keep in refl))))))

module _ {E P S : Type 0} (metrics : MetricsDriver E P S) (meters : Meters)
    (limit tracing : Option Bool) (s : Metrics E P × Trace S) (c : NetConfig) where
  pub new_grpc_server-is_some :
      is_some (new_grpc_server metrics meters (some c) limit tracing s).0 ≡ c.enabled
  unfolding new_grpc_server is_some
  new_grpc_server-is_some = elim (Bool-cases c.enabled) [
    | inl e ↦ rw (new_grpc_server, e) refl
    | inr e ↦ rw (new_grpc_server, e) refl
  ]

  new_http_server-is_some :
      is_some (new_http_server metrics meters (some c) limit tracing s).0 ≡ c.enabled
  unfolding new_http_server is_some
  new_http_server-is_some = elim (Bool-cases c.enabled) [
    | inl e ↦ rw (new_http_server, e) refl
    | inr e ↦ rw (new_http_server, e) refl
  ]

module _ {S : Type 0} where
  new_websocket_server-is_some :
      (new_server : Bytes → Bytes → WebsocketServer S) (c : WebsocketConfig)
      (svc : GreeterService S)
      → is_some (new_websocket_server new_server (some c) svc).0
        ≡ (c.enabled && not (same (trim_space c.addr) [] || same (trim_space c.path) []))
  unfolding new_websocket_server is_some
  new_websocket_server-is_some new_server c svc = elim (Bool-cases c.enabled) [
    | inr e ↦ rw (new_websocket_server, e) refl
    | inl e ↦ elim (Bool-cases (same (trim_space c.addr) [] || same (trim_space c.path) [])) [
      | inl f ↦ rw (new_websocket_server, e, f) refl
      | inr f ↦ rw (new_websocket_server, e, f) refl
    ]
  ]

  new_mqtt_server-is_some :
      (c : MqttConfig) (t : Trace S)
      → is_some (new_mqtt_server (some c) t).0
        ≡ (c.enabled && not (same (trim_space c.addr) [] || same (trim_space c.topic) []))
  unfolding new_mqtt_server is_some disabled
  new_mqtt_server-is_some c t = elim (Bool-cases c.enabled) [
    | inr e ↦ rw (new_mqtt_server, e) refl
    | inl e ↦ elim (Bool-cases (same (trim_space c.addr) [] || same (trim_space c.topic) [])) [
      | inl f ↦ rw (new_mqtt_server, e, f) refl
      | inr f ↦ rw (new_mqtt_server, e, f) refl
    ]
  ]

  after_register-is_some :
      (srv : RabbitMqServer) (r : Option Error × Trace S)
      → is_some (after_register srv r).0 ≡ not (is_some r.0)
  unfolding after_register is_some
  after_register-is_some srv (none, t) = refl
  after_register-is_some srv (some e, t) = refl

  new_rabbitmq_server-is_some :
      (register : RabbitMqServer → Trace S → Option Error × Trace S) (c : RabbitMqConfig)
      (registers : Bool) (t : Trace S)
      → ((u : Trace S) → not (is_some (register (rabbitmq_server c) u).0) ≡ registers)
      → is_some (new_rabbitmq_server register (some c) t).0
        ≡ (c.enabled && not (lacks_setting c) && registers)
  unfolding new_rabbitmq_server is_some disabled
  new_rabbitmq_server-is_some register c registers t h = elim (Bool-cases c.enabled) [
    | inr e ↦ rw (new_rabbitmq_server, e) refl
    | inl e ↦ elim (Bool-cases (lacks_setting c)) [
      | inl f ↦ rw (new_rabbitmq_server, e, f) refl
      | inr f ↦
          rw (new_rabbitmq_server, e, f)
            (after_register-is_some (rabbitmq_server c) (register (rabbitmq_server c) t) ∙ h t)
    ]
  ]

module _ {E P S : Type 0} (metrics : MetricsDriver E P S) (transports : Transports S)
    (cfg : ServerConfig) (tracing : Option Bool) (grpc_server : Option (List ServerOption))
    (s : Metrics E P × Trace S) where
  pub other_servers-started :
      (greeter : GreeterService S) (registers : Bool)
      → is_some grpc_server ≡ cfg.grpc.enabled
      → ((u : Trace S)
          → not (is_some (transports.register (rabbitmq_server cfg.rabbitmq) u).0) ≡ registers)
      → started (other_servers metrics transports cfg tracing greeter grpc_server s).0
        ≡ keep (is_wanted cfg registers) (grpc ∷ http ∷ websocket ∷ mqtt ∷ rabbitmq ∷ [])
  unfolding other_servers started
  other_servers-started greeter registers on h =
      rw
        (
          on,
          new_http_server-is_some metrics transports.meters (some cfg.ratelimit_enabled) tracing s
              cfg.http,
          new_websocket_server-is_some transports.new_websocket cfg.websocket greeter,
          not_or (same (trim_space cfg.websocket.addr) [])
              (same (trim_space cfg.websocket.path) []),
          new_mqtt_server-is_some cfg.mqtt _,
          not_or (same (trim_space cfg.mqtt.addr) []) (same (trim_space cfg.mqtt.topic) []),
          new_rabbitmq_server-is_some transports.register cfg.rabbitmq registers _ h,
          not-lacks_setting cfg.rabbitmq,
        )
        (app_servers-keep (is_wanted cfg registers))

  -- What a service without a websocket server does with a chat message, once there are servers.
  pub on_chat_message-other_servers :
      (uc : GreeterUsecase S) (msg : Bytes) (t : Trace S)
      → let greeter =
          (other_servers metrics transports cfg tracing
            (new_greeter_service uc)
            grpc_server
            s).0.greeter in
        on_chat_message greeter msg t ≡ (
          if is_wanted cfg true websocket
          then (transports.new_websocket
                (trim_space cfg.websocket.addr)
                (trim_space cfg.websocket.path)).broadcast
              1 msg t
          else t)
  unfolding other_servers new_websocket_server set_websocket_server new_greeter_service
      on_chat_message broadcast_to
  on_chat_message-other_servers uc msg t = elim (Bool-cases cfg.websocket.enabled) [
    | inr e ↦ rw e refl
    | inl e ↦ elim (Bool-cases (same (trim_space cfg.websocket.addr) [])) [
      | inl f ↦ rw (e, f) refl
      | inr f ↦ elim (Bool-cases (same (trim_space cfg.websocket.path) [])) [
        | inl g ↦ rw (e, f, g) refl
        | inr g ↦ rw (e, f, g) refl
      ]
    ]
  ]
