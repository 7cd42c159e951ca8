-- ===== src/Wire/Program/App.antt =====
-- The app that wireApp returns.
use web_template_go.Greeter.Service.{on_chat_message}
use web_template_go.Prelude.{[], ◌∷◌, Bool, not, some, if◌then◌else◌, ◌≡◌}
use web_template_go.Servers.Middleware.Order.{keep}
use web_template_go.Logging.{Logger}
use web_template_go.Servers.Start.Presence.{
  is_wanted, new_grpc_server-is_some, on_chat_message-other_servers, other_servers-started,
}
use web_template_go.Greeter.Trace.{Trace}
use web_template_go.Wire.{Providers, or_undo, wire_app, grpc, http, websocket, mqtt, rabbitmq}
use web_template_go.Errors.{Result, ok, err}
use web_template_go.Text.{Bytes, is_some, trim_space}
use web_template_go.Servers.Queues.{rabbitmq_server}
use web_template_go.Wire.Program.{
  AppConfig, Drivers, Process, WebApp, app_providers, greeter_service, make_app, make_grpc,
  wire_program,
}

-- Every value that is no error is in `Q`.
unfoldable pub AllOk : {S C T : Type 0} → (C → Type 0) → Result (C × T) × S → Type 0
AllOk Q (err e, u) = Unit {0}
AllOk Q (ok (c, cleanup), u) = Q c

AllOk-ok :
    {S C T : Type 0} (Q : C → Type 0) (c : C) (cleanup : T) (u : S)
    → Q c
    → AllOk Q (ok (c, cleanup), u)
unfolding AllOk
AllOk-ok Q c cleanup u h = h

or_undo-AllOk :
    {S A C : Type 0} (Q : C → Type 0) (undo : S → S) (r : Result (A × (S → S)) × S)
    (rest : A → (S → S) → S → Result (C × (S → S)) × S)
    → ((a : A) (cleanup : S → S) (u : S) → AllOk Q (rest a cleanup u))
    → AllOk Q (or_undo undo r rest)
unfolding or_undo AllOk
or_undo-AllOk Q undo (err e, u) rest h = tt
or_undo-AllOk Q undo (ok (a, cleanup), u) rest h = h a cleanup u

wire_app-AllOk :
    {S Registrar Client RabbitMq Publisher Grpc Postgres Redis Mongo App : Type 0}
    (Q : App → Type 0)
    (p : Providers S Registrar Client RabbitMq Publisher Grpc Postgres Redis Mongo App) (s : S)
    → ((a : Registrar) (c : Client) (e : Publisher) (b : Postgres) (r : Redis) (m : Mongo) (t u : S)
        → Q (p.assemble a (p.new_grpc_server c e t).0 b r m u).0)
    → AllOk Q (wire_app p s)
unfolding wire_app
wire_app-AllOk Q p s h =
    or_undo-AllOk Q (λ s. s) (p.new_kubernetes_registrar s) _
      λ a1 c1 s1. or_undo-AllOk Q c1 (p.new_greeter_client s1) _ λ a2 c2 s2.
        or_undo-AllOk Q (λ s. c1 (c2 s)) (p.new_rabbitmq_publisher s2) _
          λ a3 c3 s3.
            or_undo-AllOk Q (λ s. c1 (c2 (c3 s))) (p.new_greeter_event_publisher a3 s3) _
              λ a4 c4 s4.
                or_undo-AllOk Q (λ s. c1 (c2 (c3 (c4 s))))
                  (p.new_postgres_db (p.new_grpc_server a2 a4 s4).1) _
                  λ a5 c5 s5.
                    or_undo-AllOk Q (λ s. c1 (c2 (c3 (c4 (c5 s))))) (p.new_redis_client s5) _
                      λ a6 c6 s6.
                        or_undo-AllOk Q (λ s. c1 (c2 (c3 (c4 (c5 (c6 s)))))) (p.new_mongo_client s6)
                          _ λ a7 c7 s7. AllOk-ok Q _ _ _ (h a1 a2 a4 a5 a6 a7 s4 s7)

module _ {O K R C B M P D N E MP T S : Type 0} (d : Drivers O K R C B M P D N E MP T S)
    (cfg : AppConfig) (logger : Logger) (registers : Bool) where
  -- The servers of an app are those that the configuration asks for, in the order gRPC, HTTP,
  -- websocket, MQTT and RabbitMQ; and its service sends a chat message to the sessions of the
  -- websocket server if there is to be one, and else drops it.
  abbrev pub ServesConfig : WebApp R P D N S → Type 0
  ServesConfig app =
      (app.running
        ≡ keep (is_wanted cfg.servers registers) (grpc ∷ http ∷ websocket ∷ mqtt ∷ rabbitmq ∷ []))
      × ((msg : Bytes) (t : Trace S)
          → on_chat_message app.servers.greeter msg t ≡ (
              if is_wanted cfg.servers registers websocket
              then (d.transports.new_websocket (trim_space cfg.servers.websocket.addr)
                    (trim_space cfg.servers.websocket.path)).broadcast
                  1 msg t
              else t))

  -- If the RabbitMQ library takes the subscriber or not, whatever the log and the outside are
  -- (`registers`): in an app that wireApp returns, those servers run that are enabled and have all
  -- the settings that they need, without RabbitMQ if its subscriber is refused; and a chat message is
  -- broadcast by the websocket server of the configured address and path just when that runs.
  pub wire_program-ServesConfig :
      (s : Process E MP B T S)
      → ((u : Trace S)
          → not (is_some (d.transports.register (rabbitmq_server cfg.servers.rabbitmq) u).0)
            ≡ registers)
      → AllOk ServesConfig (wire_program d cfg logger s)
  unfolding wire_program app_providers make_app make_grpc greeter_service
  wire_program-ServesConfig s h =
      wire_app-AllOk ServesConfig (app_providers d cfg logger) s
        λ registrar client publisher db redis mongo t u. (
          other_servers-started d.metrics d.transports cfg.servers (some cfg.tracing_enabled) _
              (u.metrics, u.trace) _ registers
              (new_grpc_server-is_some d.metrics d.transports.meters
                (some cfg.servers.ratelimit_enabled) (some cfg.tracing_enabled) (t.metrics, t.trace)
                cfg.servers.grpc)
              h,
          on_chat_message-other_servers d.metrics d.transports cfg.servers
              (some cfg.tracing_enabled) _ (u.metrics, u.trace) _,
        )
