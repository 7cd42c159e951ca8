-- ===== src/Tests/Startup.antt =====
-- wireApp with the repository's constructors where the outside counts what is open, and MongoDB does
-- not answer or is off; and a publisher of which one message is refused.
use web_template_go.Discovery.Overrides.{IsOverridden, build_rest_config-IsOverridden}
use web_template_go.Databases.Redis.{opened}
use web_template_go.Logging.{Logger, standard_output}
use web_template_go.Metrics.{Metrics}
use web_template_go.Tests.Serving.{transports, server_config}
use web_template_go.Tests.Connections.{postgres_config, redis_config, mongo_config}
use web_template_go.Remote.{ServiceConfig}
use web_template_go.Prelude.{
  ℕ, suc, ◌+◌, ◌-◌, List, [], ◌∷◌, true, false, Option, none, some, if◌then◌else◌, ◌≡◌, refl, arith,
  ◌⊎◌, Bool, Bool-cases, ◌||◌, ◌&&◌, not, ◌==◌, ◌≤◌, inl, inr,
}
use web_template_go.Errors.{Error, Result, ok, message}
use web_template_go.Databases.{seconds, pos, ℤ, is_positive, or_default}
use web_template_go.Wire.Balance.{Undoes}
use web_template_go.Databases.Balance.{Opened}
use web_template_go.Messaging.Balance.{
  IsBrokers, disconnect_all-publish_each, publish_each, has_client,
}
use web_template_go.Wire.Program.App.{AllOk, ServesConfig, wire_program-ServesConfig}
use web_template_go.Text.{
  Bytes, ascii_space, bytes, has_prefix, is_some, same, skip_space, space_width, space_width_back,
  trim_space,
}
use web_template_go.Greeter.Trace.{Trace, error, write_line}
use web_template_go.Wire.Program.Balance.{
  AreDrivers, wire_program-IsBalanced, IsRunning, IsRestored, holds,
}
use web_template_go.Messaging.{
  Brokers, find_client, put_client, publish, get_or_create_client, create_client, after_connect,
  send_to, disconnect_all,
}
use web_template_go.Discovery.{
  KubernetesConfig, KubernetesDriver, RestConfig, apply_overrides, normalize_mode, override_with,
  build_rest_config, build_kubeconfig, overridden,
}
use web_template_go.Wire.Program.{AppConfig, Drivers, wire_program, Process}

abbrev down : Error
down = message (bytes "connection refused")

abbrev opens : Trace ℕ → Result (Unit {0}) × Trace ℕ
opens t = (ok tt, record t { outside = suc t.outside })

abbrev closes : Unit {0} → Trace ℕ → Option Error × Trace ℕ
closes c t = (none, record t { outside = t.outside - 1 })

abbrev answers : ℤ → Unit {0} → Trace ℕ → Option Error × Trace ℕ
answers timeout c t = (none, t)

abbrev refuses : ℤ → Unit {0} → Trace ℕ → Option Error × Trace ℕ
refuses timeout c t = (some down, t)

opens-Opened : (t : Trace ℕ) → Opened closes t (opens t)
opens-Opened t v h = omega (arith, h)

-- A broker is numbered, and the outside is the list of those that are connected. A message with the
-- key `bad` is refused.
abbrev without : ℕ → List ℕ → List ℕ
without c [] = []
without c (d ∷ ds) = let rest = without c ds in if c == d then rest else d ∷ rest

abbrev pub is_open : List ℕ → ℕ → Bool
is_open [] i = false
is_open (c ∷ cs) i = (c == i) || is_open cs i

abbrev fresh : List ℕ → ℕ
fresh [] = 0
fresh (c ∷ cs) = suc (c + fresh cs)

abbrev pub broker : Brokers ℕ ℕ (List ℕ)
broker = record {
  connect =
      λ addr exchange t. (ok (fresh t.outside), record t { outside = fresh t.outside ∷ t.outside });
  send = λ c key msg t. (if same key (bytes "bad") then some down else none, t);
  disconnect = λ c t.
      (if is_open t.outside c then none else some down, record t { outside = without c t.outside });
}

and_false : (a : Bool) → (a && false) ≡ false
and_false true = refl
and_false false = refl

swapped : (a b : Bool) → (a || (b || false)) ≡ (b || (a || false))
swapped true true = refl
swapped true false = refl
swapped false true = refl
swapped false false = refl

or_same : (a b : Bool) → (a || b) ≡ (b || a)
or_same true true = refl
or_same true false = refl
or_same false true = refl
or_same false false = refl

-- A number from `fresh` on is not in the list.
not_open : (cs : List ℕ) (i : ℕ) → fresh cs ≤ i → is_open cs i ≡ false
not_open [] i h = refl
not_open (c ∷ cs) i h = elim (Bool-cases (c == i)) [
  | inl e ↦ absurd (ground (arith, e, h))
  | inr e ↦ rw e (not_open cs i (omega (arith, h)))
]

fresh-IsFresh : (cs : List ℕ) (i : ℕ) → (is_open cs i && (fresh cs == i)) ≡ false
fresh-IsFresh cs i = elim (Bool-cases (fresh cs == i)) [
  | inl e ↦ rw (not_open cs i (ground (arith, e))) refl
  | inr e ↦ rw e (and_false (is_open cs i))
]

is_open-without :
    (c i : ℕ) (cs : List ℕ) → is_open (without c cs) i ≡ (is_open cs i && not (c == i))
is_open-without c i [] = refl
is_open-without c i (d ∷ ds) = elim (Bool-cases (c == d)) [
  | inl e ↦ elim (Bool-cases (d == i)) [
    | inl f ↦
        let k : (c == i) ≡ true = ground (arith, e, f) in
        rw (e, f, is_open-without c i ds, k) (and_false (is_open ds i))
    | inr f ↦ rw (e, f, is_open-without c i ds) refl
  ]
  | inr e ↦ elim (Bool-cases (d == i)) [
    | inl f ↦ let k : (c == i) ≡ false = ground (arith, e, f) in rw (e, f, k) refl
    | inr f ↦ rw (e, f) (is_open-without c i ds)
  ]
]

broker-IsBrokers : IsBrokers broker (λ c. c) is_open
broker-IsBrokers = record {
  connects = λ addr exchange t i.
      (or_same (fresh t.outside == i) (is_open t.outside i), fresh-IsFresh t.outside i);
  sends = λ c key msg t i. refl;
  disconnects = λ c t i. is_open-without c i t.outside;
}

abbrev messages : List (Bytes × Bytes × ℕ)
messages =
    (bytes "a", bytes "k", 1)
    ∷ (bytes "b", bytes "bad", 2)
    ∷ (bytes " ", bytes "k", 3)
    ∷ (bytes "a", bytes "k", 4)
    ∷ []

abbrev pub four_open : Trace ℕ
four_open = record { outside = 4; log = [] }

-- The broker 4 belongs to somebody else.
abbrev pub broker_four : Trace (List ℕ)
broker_four = record { outside = 4 ∷ []; log = [] }

disconnect_all-publish_each_example :
    let r =
      publish_each broker messages (record { clients = []; addr = bytes "amqp://" }, broker_four) in
    (is_open r.1.outside 5 ≡ (is_open (4 ∷ []) 5 || has_client (λ c. c) 5 r.0.clients))
    × (is_open (disconnect_all broker ((bytes "b", 11) ∷ (bytes "a", 5) ∷ []) r.1).outside 5
        ≡ is_open (4 ∷ []) 5)
unfolding publish_each publish get_or_create_client create_client after_connect find_client
    put_client send_to trim_space ascii_space skip_space space_width space_width_back has_prefix
    same bytes has_client write_line
disconnect_all-publish_each_example =
    disconnect_all-publish_each broker (λ c. c) is_open broker-IsBrokers messages (bytes "amqp://")
      ((bytes "b", 11) ∷ (bytes "a", 5) ∷ []) broker_four (λ i. swapped (11 == i) (5 == i)) 5

abbrev pub drivers : Drivers Unit Unit Unit Unit ℕ ℕ Unit Unit Unit Unit Unit (List ℕ) ℕ
drivers = record {
  kubernetes = record {
    in_cluster_config = ok none;
    build_config_from_flags = λ server file. ok none;
    new_for_config = λ rest. ok tt;
    get_namespace = [];
    start = λ client namespace t. (tt, record t { outside = suc t.outside });
    close = λ reg t. record t { outside = t.outside - 1 };
  };
  remote = record {
    requests_counter = none;
    seconds_histogram = some down;
    dial = λ target timeout mws t. opens t;
    close = closes;
  };
  greeter_client = λ c. record { say_hello = λ name t. (ok name, t) };
  brokers = broker;
  event_client = λ p. record { publish = λ exchange key event t. (none, t) };
  postgres = record {
    open_db = λ source cfg t. opens t;
    sql_db = λ c. none;
    configure = λ p c t. t;
    ping = answers;
    close = closes;
  };
  redis = record {
    new_client = λ o t. (tt, record t { outside = suc t.outside });
    ping = answers;
    close = closes;
  };
  mongo = record { connect = λ timeout o t. opens t; ping = refuses; disconnect = closes };
  metrics = record {
    new_exporter = λ t. (ok tt, record t { outside = suc t.outside });
    set_provider = λ x t. (tt, t);
    shutdown = λ p t. record t { outside = t.outside - 1 };
  };
  transports = transports;
}

pub drivers-AreDrivers : AreDrivers drivers (λ c. c) is_open
unfolding opened
drivers-AreDrivers = record {
  kubernetes = record { starts = λ client namespace t v h. omega (arith, h) };
  remote = record { dials = λ target timeout mws t. opens-Opened t };
  postgres = record {
    opens = λ source cfg t. opens-Opened t;
    pooled = λ source cfg t u c e made broken. absurd (ground (arith, broken));
    configures = λ p c t. refl;
    pings = λ timeout c t. refl;
  };
  redis = record { opens = λ o t. opens-Opened t; pings = λ timeout c t. refl };
  mongo = record { opens = λ timeout o t. opens-Opened t; pings = λ timeout c t. refl };
  brokers = broker-IsBrokers;
  registers = λ srv t. refl;
}

abbrev pub kubernetes_config : KubernetesConfig
kubernetes_config = record {
  enabled = true;
  mode = [];
  api_server = [];
  kubeconfig = [];
  namespace = bytes "web";
  token = [];
  timeout = pos 0;
  insecure_skip_verify = false;
}

abbrev pub remote_config : ServiceConfig
remote_config = record {
  enabled = true;
  target = bytes "greeter:9000";
  timeout = seconds 1;
  circuitbreaker_enabled = true;
}

abbrev web_config : AppConfig
web_config = record {
  servers = server_config;
  kubernetes = kubernetes_config;
  remote_greeter = remote_config;
  postgres = postgres_config;
  redis = redis_config;
  mongodb = mongo_config;
  tracing_enabled = true;
}

abbrev quiet_logger : Logger
quiet_logger = record { writer = standard_output; filter_level = error }

abbrev no_exporter_made : Metrics Unit Unit
no_exporter_made = record { done = true; init_err = some down; exporter = none; provider = none }

abbrev process : Process Unit Unit ℕ (List ℕ) ℕ
process = record {
  metrics = no_exporter_made;
  trace = four_open;
  publisher = none;
  brokers = 4 ∷ [];
}

wire_program-IsBalanced_example :
    Undoes
      (IsRunning (λ c. c) is_open)
      (IsRestored (λ c. c) is_open)
      process
      (wire_program drivers web_config quiet_logger process)
wire_program-IsBalanced_example =
    wire_program-IsBalanced drivers (λ c. c) is_open web_config quiet_logger drivers-AreDrivers
      process refl (unfold holds in λ i. refl)

-- HTTP and the websocket: gRPC is off, MQTT has no topic, and RabbitMQ refuses. MongoDB is off, so
-- there is an app.
abbrev app_config_without_mongo : AppConfig
app_config_without_mongo = record web_config { mongodb = record mongo_config { enabled = false } }

wire_program-ServesConfig_example :
    AllOk
      (ServesConfig drivers app_config_without_mongo quiet_logger false)
      (wire_program drivers app_config_without_mongo quiet_logger process)
wire_program-ServesConfig_example =
    wire_program-ServesConfig drivers app_config_without_mongo quiet_logger false process
      (unfold is_some in λ u. refl)

abbrev override_config : KubernetesConfig
override_config = record kubernetes_config {
  mode = bytes " kubeconfig ";
  kubeconfig = bytes "/root/.kube/config";
  api_server = bytes "https://api";
  timeout = seconds 5;
}

abbrev file_config : RestConfig Unit
file_config = record {
  host = bytes "https://old";
  bearer_token = bytes "secret";
  timeout = pos 0;
  insecure = true;
  others = tt;
}

abbrev kubeconfig_driver : KubernetesDriver Unit Unit Unit ℕ
kubeconfig_driver = record drivers.kubernetes {
  build_config_from_flags = λ server path. ok (some file_config);
}

abbrev overridden_config : RestConfig Unit
overridden_config = record file_config { host = bytes "https://api"; timeout = seconds 5 }

build_rest_config-IsOverridden_example :
    IsOverridden override_config overridden_config
    × ((trim_space override_config.mode ≡ [])
        ⊎ (trim_space override_config.mode ≡ bytes "in_cluster")
        ⊎ (trim_space override_config.mode ≡ bytes "kubeconfig"))
build_rest_config-IsOverridden_example =
    build_rest_config-IsOverridden override_config kubeconfig_driver overridden_config (
      unfold build_rest_config build_kubeconfig overridden apply_overrides override_with
        normalize_mode or_default is_positive trim_space ascii_space skip_space space_width
        space_width_back has_prefix same bytes in
      refl)
