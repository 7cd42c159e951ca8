-- ===== src/Wire.antt =====
-- wireApp of cmd/server/wire_gen.go, and newApp of cmd/server/main.go. The providers are arguments:
-- each returns a resource with its cleanup, or an error. `S` is the state of the outside.
pub mod Balance
pub mod Program
use web_template_go.Prelude.{
  ℕ, zero, suc, ◌+◌, ◌-◌, ◌<◌, ◌≤◌, List, [], ◌∷◌, ◌++◌, Bool, true, false, not, ◌↔◌, map, Option,
  none, some, if◌then◌else◌, Bool-cases, Option-cases, sym, ap, ◌==◌, ◌∙◌, ◌≡◌, ◌≢◌, refl, ◌⊎◌, inl,
  inr, arith,
}
use web_template_go.Errors.{Result, ok, err, Error}

-- What a provider with a cleanup is called for, and what it leaves.
abbrev pub Provider : Type 0 → Type 0 → Type 0
Provider S A = S → Result (A × (S → S)) × S

module _ {S : Type 0} where
  -- `if err != nil { undo; return nil, nil, err }`, then the rest of the function.
  unfoldable pub or_undo :
      {A C : Type 0}
      → (S → S)
      → Result (A × (S → S)) × S
      → (A → (S → S) → S → Result C × S)
      → Result C × S
  or_undo undo (err e, s) rest = (err e, undo s)
  or_undo undo (ok (a, cleanup), s) rest = rest a cleanup s

-- The constructors that wireApp calls. Those without an error and a cleanup are two functions:
-- `new_grpc_server` goes from the greeter's repository to the gRPC server, and `assemble` from the
-- system service to the app.
pub record Providers (S Registrar Client RabbitMq Publisher Grpc Postgres Redis Mongo App : Type 0)
    : Type 0 where
  pub new_kubernetes_registrar : Provider S Registrar
  pub new_greeter_client : Provider S Client
  pub new_rabbitmq_publisher : Provider S RabbitMq
  pub new_greeter_event_publisher : RabbitMq → Provider S Publisher
  pub new_grpc_server : Client → Publisher → S → Grpc × S
  pub new_postgres_db : Provider S Postgres
  pub new_redis_client : Provider S Redis
  pub new_mongo_client : Provider S Mongo
  pub assemble : Registrar → Grpc → Postgres → Redis → Mongo → S → App × S

module _ {S Registrar Client RabbitMq Publisher Grpc Postgres Redis Mongo App : Type 0}
    (p : Providers S Registrar Client RabbitMq Publisher Grpc Postgres Redis Mongo App) where
  unfoldable pub wire_app : S → Result (App × (S → S)) × S
  unfolding or_undo
  wire_app s =
      or_undo (λ s. s) (p.new_kubernetes_registrar s)
        λ registrar cleanup s. or_undo cleanup (p.new_greeter_client s) λ client cleanup2 s.
          or_undo (λ s. cleanup (cleanup2 s)) (p.new_rabbitmq_publisher s)
            λ rabbitmq cleanup3 s.
              or_undo (λ s. cleanup (cleanup2 (cleanup3 s)))
                (p.new_greeter_event_publisher rabbitmq s)
                λ publisher cleanup4 s.
                  let (grpc, s) = p.new_grpc_server client publisher s in
                  or_undo (λ s. cleanup (cleanup2 (cleanup3 (cleanup4 s)))) (p.new_postgres_db s)
                    λ db cleanup5 s.
                      or_undo (λ s. cleanup (cleanup2 (cleanup3 (cleanup4 (cleanup5 s)))))
                        (p.new_redis_client s)
                        λ redis cleanup6 s.
                          or_undo
                            (λ s. cleanup (cleanup2 (cleanup3 (cleanup4 (cleanup5 (cleanup6 s))))))
                            (p.new_mongo_client s)
                            λ mongo cleanup7 s.
                              let (app, s) = p.assemble registrar grpc db redis mongo s in
                              (
                                ok (
                                  app,
                                  λ s. cleanup (
                                      cleanup2
                                        (cleanup3 (cleanup4 (cleanup5 (cleanup6 (cleanup7 s)))))),
                                ),
                                s,
                              )

-- The transports of newApp, each of which may be nil.
pub data Server : Type 0 where
  grpc http websocket mqtt rabbitmq : Server

abbrev append_if : Bool → Server → List Server → List Server
append_if present server servers = if present then servers ++ server ∷ [] else servers

-- The servers that newApp hands to kratos.New, by which of the five are there.
unfoldable pub app_servers : Bool → Bool → Bool → Bool → Bool → List Server
app_servers gs hs ws ms rs =
    append_if rs rabbitmq
      (append_if ms mqtt (append_if ws websocket (append_if hs http (append_if gs grpc []))))
