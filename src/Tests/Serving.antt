-- ===== src/Tests/Serving.antt =====
-- Metrics, servers and tracing at fixed configurations.
use web_template_go.Servers.Routes.Codes.{serve-code, Promised}
use web_template_go.System.{Probes, is_ready, new_system_service, no_client}
use web_template_go.Servers.Routes.{serve, metrics_route, readyz_route}
use web_template_go.Databases.{pos}
use web_template_go.Prelude.{
  ℕ, suc, ◌+◌, ◌-◌, [], true, false, ◌↔◌, none, some, ◌==◌, ◌≡◌, refl, ◌⊎◌,
}
use web_template_go.Tracing.Laws.{init_tracing_blank}
use web_template_go.Servers.Start.{ServerConfig, Transports}
use web_template_go.Greeter.Trace.{Trace}
use web_template_go.Errors.{Error, ok, err, message}
use web_template_go.Tracing.{TracingConfig, TracingDriver, init_tracing}
use web_template_go.Servers.Middleware.{Meters, common_middlewares, is_on}
use web_template_go.Metrics.Once.{init_times, init_times_first}
use web_template_go.Metrics.{
  MetricsDriver, after_exporter, handler, init_metrics, init_once, not_initialized,
}
use web_template_go.Servers.Middleware.Order.{
  common_middlewares-keep, full_order, is_enabled, keep, working_options,
}
use web_template_go.Text.{
  ascii_space, bytes, has_prefix, is_ascii, lower_byte, plain_tables, same, skip_space, space_width,
  space_width_back, to_lower, trim_space, is_some,
}

abbrev refused_error : Error
refused_error = message (bytes "refused")

-- The outside counts the exporters that have been asked for; none can be made.
abbrev no_metrics : MetricsDriver Unit Unit ℕ
no_metrics = record {
  new_exporter = λ t. (err refused_error, record t { outside = suc t.outside });
  set_provider = λ x t. (tt, t);
  shutdown = λ p t. t;
}

abbrev nothing_made : Trace ℕ
nothing_made = record { outside = 0; log = [] }

asked_once : (init_times no_metrics 3 (not_initialized, nothing_made)).1.outside ≡ 1
unfolding init_times init_metrics init_once after_exporter not_initialized
asked_once = refl

init_times_first_example :
    let first = init_metrics no_metrics (not_initialized, nothing_made) in
    let s = init_times no_metrics 3 (not_initialized, nothing_made) in
    (s ≡ (first.1, first.2))
    × ((init_metrics no_metrics s).0 ≡ first.0)
    × ((s.0.init_err ≡ none) ↔ (handler tt s.0 ≡ some tt))
init_times_first_example = init_times_first no_metrics 2 nothing_made

abbrev meters : Meters
meters = record { requests_counter = some refused_error; seconds_histogram = none }

common_middlewares-keep_example :
    (common_middlewares no_metrics meters
      (some true)
      (some false)
      (not_initialized, nothing_made)).0
    ≡ keep
        (is_enabled (is_on (some true)) (is_on (some false)))
        (full_order (working_options meters))
common_middlewares-keep_example =
    common_middlewares-keep no_metrics meters (some true) (some false)
      (not_initialized, nothing_made)

abbrev pub transports : Transports ℕ
transports = record {
  meters = meters;
  new_websocket =
      λ addr path. record { broadcast = λ kind msg t. record t { outside = t.outside + 100 } };
  register = λ srv t. (some refused_error, t);
}

abbrev pub server_config : ServerConfig
server_config = record {
  http = record { enabled = true; network = []; addr = bytes ":8000"; timeout = pos 0 };
  grpc = record { enabled = false; network = []; addr = []; timeout = pos 0 };
  ratelimit_enabled = true;
  websocket = record { enabled = true; addr = bytes ":8100"; path = bytes " /ws " };
  mqtt = record { enabled = true; addr = bytes "tcp://mq"; topic = bytes "  " };
  rabbitmq = record {
    enabled = true;
    addr = bytes "amqp://";
    exchange = bytes "x";
    routing_key = bytes "k";
    queue = bytes "q";
  };
}

abbrev pub otel : TracingDriver ℕ Unit Unit Unit ℕ
otel = record {
  at_most_zero = λ n. n == 0;
  one = 1;
  new_resource = λ name version. ok tt;
  otlp_grpc = λ options. ok tt;
  otlp_http = λ options. ok tt;
  zipkin = λ endpoint. ok tt;
  stdout = ok tt;
  set_provider = λ x r sampler t. (tt, record t { outside = suc t.outside });
  shutdown = λ timeout p t. (none, record t { outside = t.outside - 1 });
}

abbrev pub tracing_config : TracingConfig ℕ
tracing_config = record {
  enabled = true;
  exporter = bytes "Zipkin";
  endpoint = bytes "  ";
  insecure = true;
  sampler = bytes "off";
  ratio = 0;
  headers = [];
  timeout = pos 0;
  service_name = [];
}

init_tracing_blank_example :
    (e : Error) × (init_tracing otel plain_tables
        (some tracing_config)
        (bytes "web")
        (bytes "1.0")
        nothing_made
      ≡ (err e, nothing_made))
init_tracing_blank_example =
    init_tracing_blank otel plain_tables tracing_config
      (unfold trim_space ascii_space skip_space space_width space_width_back has_prefix same
          bytes in
        refl)
      (bytes "web") (bytes "1.0") nothing_made refl
      (unfold to_lower is_ascii lower_byte trim_space ascii_space skip_space space_width
          space_width_back has_prefix same bytes in
        refl)

-- /metrics where Init has failed.
serve-code_example :
    let m = (init_metrics no_metrics (not_initialized, nothing_made)).1 in
    let s = new_system_service 7 in
    let p : Probes = record { postgres = no_client; redis = no_client; mongodb = no_client } in
    let r = serve (λ t. []) (λ h. 500) tt metrics_route 9 p m s in
    Promised (λ h. 500) tt metrics_route (is_ready s 9 p).0 (is_some m.exporter) r.0
    × ((r.1 ≡ s) ⊎ ((metrics_route ≡ readyz_route) × (r.1 ≡ (is_ready s 9 p).1)))
serve-code_example =
    serve-code (λ t. []) (λ h. 500) tt metrics_route 9
      (record { postgres = no_client; redis = no_client; mongodb = no_client })
      (init_metrics no_metrics (not_initialized, nothing_made)).1 (new_system_service 7)
