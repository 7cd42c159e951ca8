-- ===== src/Wire/Program/Balance.antt =====
-- What the constructors that wireApp calls have opened is closed again.
use web_template_go.Messaging.Balance.{
  IsBrokers, IsGrown, has_client, new_IsGrown, IsGrown-closed, and_true, disconnect_all-opens,
}
use web_template_go.Metrics.{Metrics}
use web_template_go.Databases.{nothing}
use web_template_go.Discovery.Balance.{IsKubernetesDriver, new_kubernetes_registrar-IsBalanced}
use web_template_go.Servers.{ServerOption}
use web_template_go.Greeter.Trace.{Trace, write_line}
use web_template_go.Greeter.Usecase.{GreeterEventPublisher}
use web_template_go.Greeter.Repo.{EventClient, new_greeter_event_publisher}
use web_template_go.Remote.Balance.{IsRemoteDriver, new_greeter_client-IsBalanced}
use web_template_go.Messaging.{
  Brokers, RabbitMqConfig, with_disconnect, new_rabbitmq_publisher, RabbitMqPublisher,
  disconnect_live,
}
use web_template_go.Errors.{Result, ok, err}
use web_template_go.Servers.Queues.{RabbitMqServer}
use web_template_go.Text.{same, trim_space, is_some}
use web_template_go.Wire.Balance.{
  AreProviders, IsQuiet, IsUndoable, StaysIn, Undoes, wire_app-Undoes,
}
use web_template_go.Wire.Program.{
  AppConfig, Drivers, Process, app_providers, beside, make_app, make_grpc, wire_program,
  without_error, view_of, held, hold, with_publisher,
}
use web_template_go.Prelude.{
  Bool-cases, List, [], true, Option, none, some, ap, ◌∙◌, ◌≡◌, refl, inl, inr, ℕ, Bool, false, not,
  ◌&&◌, sym, arith,
}
use web_template_go.Logging.{Logger}
use web_template_go.Servers.Start.Quiet.{new_grpc_server-IsStill, other_servers-IsStill}
use web_template_go.Databases.Balance.{
  IsMongoDriver, IsPostgresDriver, IsRedisDriver, new_mongo_client-IsBalanced,
  new_redis_client-IsBalanced, new_postgres_db-IsBalanced,
}
use web_template_go.Greeter.Service.{GreeterService}

-- The laws of the libraries: closing closes what opening has opened, and to register a subscriber
-- opens nothing.
pub record AreDrivers {O K R C B M P D N E MP T S : Type 0} (d : Drivers O K R C B M P D N E MP T S)
    (id : B → ℕ) (opens : T → ℕ → Bool) : Type 0 where
  pub kubernetes : IsKubernetesDriver d.kubernetes
  pub remote : IsRemoteDriver d.remote
  pub postgres : IsPostgresDriver d.postgres
  pub redis : IsRedisDriver d.redis
  pub mongo : IsMongoDriver d.mongo
  pub brokers : IsBrokers d.brokers id opens
  pub registers :
      (srv : RabbitMqServer) (u : Trace S) → (d.transports.register srv u).1.outside ≡ u.outside

event_publisher-IsBalanced :
    {S : Type 0} (client : Option (EventClient S)) (t : Trace S)
    → IsUndoable (λ u. u.outside) t (without_error (new_greeter_event_publisher client t))
unfolding without_error new_greeter_event_publisher nothing write_line
event_publisher-IsBalanced none t = λ v p. p
event_publisher-IsBalanced (some c) t = λ v p. p

abbrev pub IsDone : {E MP : Type 0} → Metrics E MP → Type 0
IsDone m = m.done ≡ true

-- The publisher has a client with the identity `i`.
unfoldable pub holds : {B : Type 0} → (B → ℕ) → ℕ → Option (RabbitMqPublisher B) → Bool
holds id i none = false
holds id i (some p) = has_client id i p.clients

holds-none :
    {B : Type 0} (id : B → ℕ) (i : ℕ) (publisher : Option (RabbitMqPublisher B))
    → is_some publisher ≡ false
    → holds id i publisher ≡ false
unfolding holds is_some
holds-none id i none h = refl
holds-none id i (some p) h = absurd (ground (arith, h))

disconnect_live-opens :
    {B M T : Type 0} (brokers : Brokers B M T) (id : B → ℕ) (opens : T → ℕ → Bool)
    (laws : IsBrokers brokers id opens) (publisher : Option (RabbitMqPublisher B)) (t : Trace T)
    (i : ℕ)
    → opens (disconnect_live brokers (publisher, t)).1.outside i
      ≡ (opens t.outside i && not (holds id i publisher))
unfolding disconnect_live holds
disconnect_live-opens brokers id opens laws none t i = sym (and_true (opens t.outside i))
disconnect_live-opens brokers id opens laws (some p) t i =
    disconnect_all-opens brokers id opens laws t.outside i p.clients t

-- What NewRabbitMQPublisher leaves: the same connections, and a publisher without clients.
abbrev IsNew : {B T : Type 0} → T → Result (Option (RabbitMqPublisher B)) × Trace T → Type 0
IsNew connections (ok (some p), t) = (t.outside ≡ connections) × (p.clients ≡ [])
IsNew connections (_, t) = t.outside ≡ connections

new_rabbitmq_publisher-IsNew :
    {B M T : Type 0} (brokers : Brokers B M T) (cfg : RabbitMqConfig) (t : Trace T)
    → IsNew t.outside (new_rabbitmq_publisher brokers cfg t)
unfolding new_rabbitmq_publisher write_line
new_rabbitmq_publisher-IsNew brokers cfg t = elim (Bool-cases cfg.enabled) [
  | inr e ↦ rw e refl
  | inl e ↦ elim (Bool-cases (same (trim_space cfg.addr) [])) [
    | inl f ↦ rw (e, f) refl
    | inr f ↦ rw (e, f) (refl, refl)
  ]
]

module _ {E MP B T S : Type 0} where
  abbrev pub outside_of : Process E MP B T S → S
  outside_of s = s.trace.outside

  -- What is asked of a process before the app runs: something of its metrics, and that no broker has
  -- been connected.
  abbrev pub IsUnused : (Metrics E MP → Type 0) → (B → ℕ) → Process E MP B T S → Type 0
  IsUnused I id s = I s.metrics × ((i : ℕ) → holds id i s.publisher ≡ false)

module _ {E MP B T S : Type 0} (id : B → ℕ) (opens : T → ℕ → Bool) where
  -- The outside is the same, and the same connections to RabbitMQ are open.
  abbrev pub IsRestored : Process E MP B T S → Process E MP B T S → Type 0
  IsRestored u v =
      (v.trace.outside ≡ u.trace.outside) × ((i : ℕ) → opens v.brokers i ≡ opens u.brokers i)

  -- The outside is the same, there still is a publisher or none, and just its clients have been
  -- connected.
  abbrev pub IsRunning : Process E MP B T S → Process E MP B T S → Type 0
  IsRunning u v =
      (v.trace.outside ≡ u.trace.outside)
      × (is_some v.publisher ≡ is_some u.publisher)
      × ((i : ℕ) → IsGrown (opens u.brokers i) (opens v.brokers i) (holds id i v.publisher))

  pub beside-IsRestored :
      {A : Type 0} (I : Metrics E MP → Type 0) (s : Process E MP B T S)
      (r : Result (A × (Trace S → Trace S)) × Trace S)
      → IsUndoable (λ u. u.outside) s.trace r
      → IsUnused I id s
      → Undoes IsRestored IsRestored s (beside s r) × StaysIn (IsUnused I id) (beside s r)
  unfolding beside
  beside-IsRestored I s (err e, t) h i = ((h, λ i. refl), tt)
  beside-IsRestored I s (ok (a, cleanup), t) h i = (λ v (p, q). (h v.trace p, q), i)

  beside-IsRunning :
      {A : Type 0} (I : Metrics E MP → Type 0) (s : Process E MP B T S)
      (r : Result (A × (Trace S → Trace S)) × Trace S)
      → IsUndoable (λ u. u.outside) s.trace r
      → IsUnused I id s
      → Undoes IsRunning IsRunning s (beside s r) × StaysIn (IsUnused I id) (beside s r)
  unfolding beside
  beside-IsRunning I s (err e, t) h (j, free) =
      ((h, refl, λ i. rw (free i) (new_IsGrown (opens s.brokers i))), tt)
  beside-IsRunning I s (ok (a, cleanup), t) h i = (λ v (p, q, r). (h v.trace p, q, r), i)

  module _ {M : Type 0} (brokers : Brokers B M T) (laws : IsBrokers brokers id opens) where
    with_publisher-Undoes :
        (I : Metrics E MP → Type 0) (s : Process E MP B T S)
        (r : Result (Option (RabbitMqPublisher B)) × Trace T)
        → IsNew s.brokers r
        → IsUnused I id s
        → let end = with_publisher s (with_disconnect brokers s.publisher r) in
          Undoes IsRunning IsRestored s end × StaysIn (IsUnused I id) end
    unfolding with_publisher with_disconnect hold held holds has_client is_some
    with_publisher-Undoes I s (err e, t) kept (j, free) =
        ((refl, λ i. ap (λ x. opens x i) kept), tt)
    with_publisher-Undoes I s (ok none, t) kept (j, free) = (
      λ v (p, q, live). (
        p,
        λ i.
            sym (and_true (opens v.brokers i))
            ∙ ap (λ b. opens v.brokers i && not b) (sym (holds-none id i v.publisher q))
            ∙ IsGrown-closed _ _ _ (live i)
            ∙ ap (λ x. opens x i) kept,
      ),
      (j, λ i. refl),
    )
    with_publisher-Undoes I s (ok (some p), t) (kept, empty) (j, free) = (
      λ v (p, q, live). (
        p,
        λ i.
            disconnect_live-opens brokers id opens laws v.publisher
              (record { outside = v.brokers; log = v.trace.log }) i
            ∙ IsGrown-closed _ _ _ (live i)
            ∙ ap (λ x. opens x i) kept,
      ),
      (j, λ i. ap (has_client id i) empty),
    )

module _ {O K R C B M P D N E MP T S : Type 0} (d : Drivers O K R C B M P D N E MP T S) (id : B → ℕ)
    (opens : T → ℕ → Bool) (cfg : AppConfig) (logger : Logger) (laws : AreDrivers d id opens) where
  abbrev IsReady : Process E MP B T S → Type 0
  IsReady = IsUnused IsDone id

  make_grpc-IsQuiet :
      (client : Option C) (publisher : GreeterEventPublisher S)
      → IsQuiet (IsRunning id opens) IsReady (make_grpc d cfg logger client publisher)
  unfolding make_grpc
  make_grpc-IsQuiet client publisher s (done, free) =
      let (same_metrics, same_outside) =
        new_grpc_server-IsStill d.metrics d.transports.meters (some cfg.servers.ratelimit_enabled)
          (some cfg.tracing_enabled) s.metrics s.trace done cfg.servers.grpc in
      (λ v (p, q, r). (p ∙ same_outside, q, r), (ap (λ m. m.done) same_metrics ∙ done, free))

  make_app-IsQuiet :
      (registrar : Option R) (g : GreeterService S × Option (List ServerOption)) (db : Option P)
      (redis : Option D) (mongo : Option N)
      → IsQuiet (IsRunning id opens) IsReady (make_app d cfg logger registrar g db redis mongo)
  unfolding make_app
  make_app-IsQuiet registrar g db redis mongo s (done, free) =
      let (same_metrics, same_outside) =
        other_servers-IsStill d.metrics d.transports cfg.servers (some cfg.tracing_enabled) g.0 g.1
          s.metrics s.trace done laws.registers in
      (λ v (p, q, r). (p ∙ same_outside, q, r), (ap (λ m. m.done) same_metrics ∙ done, free))

  app_providers-AreProviders :
      AreProviders (IsRestored id opens) (IsRunning id opens) IsReady (app_providers d cfg logger)
  unfolding app_providers held
  app_providers-AreProviders = record {
    registrar = λ s.
        beside-IsRestored id opens IsDone s _
          (new_kubernetes_registrar-IsBalanced d.kubernetes laws.kubernetes cfg.kubernetes s.trace);
    client = λ s.
        beside-IsRestored id opens IsDone s _
          (new_greeter_client-IsBalanced d.remote laws.remote cfg.remote_greeter s.trace);
    rabbitmq = λ s.
        with_publisher-Undoes id opens d.brokers laws.brokers IsDone s _
          (new_rabbitmq_publisher-IsNew d.brokers cfg.servers.rabbitmq _);
    publisher = λ r s.
        beside-IsRunning id opens {A = GreeterEventPublisher S} IsDone s
          (without_error (new_greeter_event_publisher (view_of d.event_client r) s.trace))
          (event_publisher-IsBalanced (view_of d.event_client r) s.trace);
    grpc = make_grpc-IsQuiet;
    postgres = λ s.
        beside-IsRunning id opens IsDone s _
          (new_postgres_db-IsBalanced d.postgres laws.postgres cfg.postgres s.trace);
    redis = λ s.
        beside-IsRunning id opens IsDone s _
          (new_redis_client-IsBalanced d.redis cfg.redis s.trace laws.redis);
    mongo = λ s.
        beside-IsRunning id opens IsDone s _
          (new_mongo_client-IsBalanced d.mongo cfg.mongodb s.trace laws.mongo);
    app = make_app-IsQuiet;
  }

  pub wire_program-Undoes :
      (s : Process E MP B T S)
      → IsReady s
      → Undoes (IsRunning id opens) (IsRestored id opens) s (wire_program d cfg logger s)
        × StaysIn IsReady (wire_program d cfg logger s)
  unfolding wire_program
  wire_program-Undoes s ready =
      wire_app-Undoes (IsRestored id opens) (IsRunning id opens) IsReady _ s
        app_providers-AreProviders ready

  -- wireApp with the constructors of the repository, under the laws of the libraries, once the
  -- metrics have been initialised and before any broker is connected, for every configuration: if any
  -- constructor fails, the outside and the open connections to RabbitMQ are left as they were before
  -- the call; else the returned cleanup, called where the outside is as wireApp has left it and the
  -- publisher's clients have been connected since, whichever they are, leads back to that.
  pub wire_program-IsBalanced :
      (s : Process E MP B T S)
      → s.metrics.done ≡ true
      → ((i : ℕ) → holds id i s.publisher ≡ false)
      → Undoes (IsRunning id opens) (IsRestored id opens) s (wire_program d cfg logger s)
  wire_program-IsBalanced s done free = (wire_program-Undoes s (done, free)).0
