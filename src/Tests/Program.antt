-- ===== src/Tests/Program.antt =====
-- main, with an app that publishes a message while it runs: tracing, metrics, the clients and the broker
-- are closed again.
use web_template_go.Messaging.Balance.{publish_each}
use web_template_go.Messaging.{RabbitMqPublisher}
use web_template_go.Wire.Program.{Process}
use web_template_go.Databases.{pos}
use web_template_go.Tests.Connections.{postgres_config, redis_config, mongo_config}
use web_template_go.Tests.Serving.{otel, tracing_config, server_config}
use web_template_go.Tests.Startup.{
  drivers, drivers-AreDrivers, four_open, kubernetes_config, remote_config, is_open, broker,
}
use web_template_go.Errors.{ok}
use web_template_go.Prelude.{
  ℕ, [], true, false, none, some, if◌then◌else◌, ◌≡◌, refl, arith, ◌∷◌, List, Option,
}
use web_template_go.Main.{Bootstrap, run_main, Program}
use web_template_go.Scaffold.Disk.{World, file, directory}
use web_template_go.Text.{bytes, plain_tables, same, Bytes}
use web_template_go.Main.Closed.{IsProgram, run_main-outside, HasPublished}

abbrev one_message : List (Bytes × Bytes × ℕ)
one_message = (bytes "greeter", bytes "created", 1) ∷ []

-- While the app runs, a message is published, which connects a broker.
abbrev publishing : Process Unit Unit ℕ (List ℕ) ℕ → Process Unit Unit ℕ (List ℕ) ℕ
publishing s = elim s.publisher [
  | none ↦ record s { publisher = none }
  | some p ↦
      let (q, t) = publish_each broker one_message (p, record { outside = s.brokers; log = [] }) in
      record s { publisher = some q; brokers = t.outside }
]

publishing-HasPublished :
    (publisher : Option (RabbitMqPublisher ℕ)) (s : Process Unit Unit ℕ (List ℕ) ℕ)
    → s.publisher ≡ publisher
    → let v = publishing s in
      (v.trace.outside ≡ s.trace.outside)
      × HasPublished broker s.publisher s.brokers v.publisher v.brokers
publishing-HasPublished none s e = rw e (refl, (refl, refl))
publishing-HasPublished (some p) s e = rw e (refl, (one_message, [], refl, refl))

abbrev program :
    Program ℕ Unit Unit Unit Unit Unit Unit Unit ℕ ℕ Unit Unit Unit Unit Unit (List ℕ) ℕ
program = record {
  tracing = otel;
  drivers = drivers;
  tables = plain_tables;
  name = bytes "web";
  version = bytes "1.0";
  run_app = λ app s. (none, publishing s);
}

program-IsProgram : IsProgram program (λ c. c) is_open
program-IsProgram = record {
  tracing = record { sets = λ x res sampler t v timeout p. omega (arith, p) };
  metrics = record { sets = λ t v p. omega (arith, p) };
  drivers = drivers-AreDrivers;
  runs = λ app s. publishing-HasPublished s.publisher s refl;
}

abbrev bootstrap : Bootstrap ℕ
bootstrap = record {
  server = server_config;
  data_config = record {
    discovery = kubernetes_config;
    postgres = postgres_config;
    redis = redis_config;
    mongodb = record mongo_config { enabled = false };
    remote_grpc = remote_config;
  };
  logger = record {
    level = [];
    format = [];
    caller = false;
    filename = [];
    max_size_mb = pos 0;
    max_backups = pos 0;
    max_age_days = pos 0;
    compress = false;
    to_stdout = true;
    local_time = false;
  };
  tracing = record tracing_config { endpoint = bytes "http://zipkin" };
}

-- The configuration is the file config.yaml of the directory.
abbrev config_disk : World
config_disk = record {
  disk = λ path.
      if same path (bytes "./configs")
      then some directory
      else if same path (bytes "configs/config.yaml")
      then some (file (bytes "yaml"))
      else none;
  runs = [];
}

run_main-outside_example :
    let end =
      (run_main program
        (λ content. ok bootstrap)
        (λ bc. bc)
        (bytes "./configs")
        config_disk
        four_open
        (4 ∷ [])).1 in
    (end.trace.outside ≡ 4) × ((i : ℕ) → is_open end.brokers i ≡ is_open (4 ∷ []) i)
run_main-outside_example =
    run_main-outside program (λ c. c) is_open program-IsProgram (λ content. ok bootstrap) (λ bc. bc)
      (bytes "./configs") config_disk four_open (4 ∷ [])
