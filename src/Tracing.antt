-- ===== src/Tracing.antt =====
-- internal/pkg/tracingx: the exporter and the sampler of traces, from tracing.go, and its
-- configuration. The ratio is a number of 64 bits with a floating point, of which the program only
-- asks whether it is positive: `F` is the type of these numbers.
pub mod Laws
use web_template_go.Prelude.{
  ℕ, zero, suc, ◌+◌, ◌-◌, ◌<◌, ◌≤◌, List, [], ◌∷◌, ◌++◌, Bool, true, false, not, ◌↔◌, map, Option,
  none, some, if◌then◌else◌, Bool-cases, Option-cases, sym, ap, ◌==◌, ◌∙◌, ◌≡◌, ◌≢◌, refl, ◌⊎◌, inl,
  inr, arith, ◌||◌,
}
use web_template_go.Greeter.Trace.{Trace, info, error, write_line}
use web_template_go.Databases.{is_positive, nothing, or_default, seconds, ℤ}
use web_template_go.Errors.{Error, Result, ok, err, ◌>>=◌, message}
use web_template_go.Text.{Bytes, Unicode, bytes, same, to_lower, trim_space}

pub record TracingConfig (F : Type 0) : Type 0 where
  pub enabled : Bool
  pub exporter : Bytes
  pub endpoint : Bytes
  pub insecure : Bool
  pub sampler : Bytes
  pub ratio : F
  pub headers : List (Bytes × Bytes)
  pub timeout : ℤ
  pub service_name : Bytes

pub data Sampler (F : Type 0) : Type 0 where
  never_sample always_sample : Sampler F
  ratio_based : F → Sampler F
  parent_based : Sampler F → Sampler F

-- The options of the two OTLP exporters.
pub data ExporterOption : Type 0 where
  with_endpoint : Bytes → ExporterOption
  with_insecure : ExporterOption
  with_headers : List (Bytes × Bytes) → ExporterOption
  with_timeout : ℤ → ExporterOption

-- `ratio <= 0`, the number 1, and the OpenTelemetry libraries: the exporters, a resource for the
-- name and the version of the service, a provider, its place as the one of the process with the two
-- propagators, and its shutdown within a timeout.
pub record TracingDriver (F R X P S : Type 0) : Type 0 where
  pub at_most_zero : F → Bool
  pub one : F
  pub new_resource : Bytes → Bytes → Result R
  pub otlp_grpc : List ExporterOption → Result X
  pub otlp_http : List ExporterOption → Result X
  pub zipkin : Bytes → Result X
  pub stdout : Result X
  pub set_provider : X → R → Sampler F → Trace S → P × Trace S
  pub shutdown : ℤ → P → Trace S → Option Error × Trace S

unfoldable pub has_headers : List (Bytes × Bytes) → Bool
has_headers [] = false
has_headers (h ∷ headers) = true

-- The options of newOTLPGRPCExporter, and those of newOTLPHTTPExporter.
unfoldable pub exporter_options : {F : Type 0} → TracingConfig F → List ExporterOption
unfolding has_headers
exporter_options cfg =
    with_endpoint (trim_space cfg.endpoint) ∷ (if cfg.insecure then with_insecure ∷ [] else [])
    ++ ((if has_headers cfg.headers then with_headers cfg.headers ∷ [] else [])
        ++ (if is_positive cfg.timeout then with_timeout cfg.timeout ∷ [] else []))

module _ {F R X P S : Type 0} (driver : TracingDriver F R X P S) (tables : Unicode) where
  -- An exporter that needs an endpoint; `name` is the one in the error.
  unfoldable pub at_endpoint : Bytes → Result X → TracingConfig F → Result X
  at_endpoint name made cfg =
      if same (trim_space cfg.endpoint) []
      then err (message (bytes "tracing.endpoint is required for " ++ (name ++ bytes " exporter")))
      else made

  unfoldable pub new_otlp_grpc_exporter : TracingConfig F → Result X
  unfolding at_endpoint exporter_options
  new_otlp_grpc_exporter cfg =
      at_endpoint (bytes "otlp_grpc") (driver.otlp_grpc (exporter_options cfg)) cfg

  unfoldable pub new_otlp_http_exporter : TracingConfig F → Result X
  unfolding at_endpoint exporter_options
  new_otlp_http_exporter cfg =
      at_endpoint (bytes "otlp_http") (driver.otlp_http (exporter_options cfg)) cfg

  unfoldable pub new_zipkin_exporter : TracingConfig F → Result X
  unfolding at_endpoint
  new_zipkin_exporter cfg =
      at_endpoint (bytes "zipkin") (driver.zipkin (trim_space cfg.endpoint)) cfg

  unfoldable pub new_exporter : TracingConfig F → Result X
  unfolding new_otlp_grpc_exporter new_otlp_http_exporter new_zipkin_exporter
  new_exporter cfg =
      let exporter = to_lower tables (trim_space cfg.exporter) in
      if same exporter [] || same exporter (bytes "otlp_grpc") || same exporter (bytes "otlp-grpc")
      then new_otlp_grpc_exporter cfg
      else if same exporter (bytes "otlp_http") || same exporter (bytes "otlp-http")
      then new_otlp_http_exporter cfg
      else if same exporter (bytes "zipkin")
      then new_zipkin_exporter cfg
      else if same exporter (bytes "stdout")
      then driver.stdout
      else err (message (bytes "unsupported tracing exporter: " ++ cfg.exporter))

  unfoldable pub new_sampler : TracingConfig F → Sampler F
  new_sampler cfg =
      let ratio = if driver.at_most_zero cfg.ratio then driver.one else cfg.ratio in
      let sampler = to_lower tables (trim_space cfg.sampler) in
      if same sampler (bytes "always_off") || same sampler (bytes "off")
      then never_sample
      else if same sampler (bytes "traceidratio") || same sampler (bytes "ratio")
      then ratio_based ratio
      else if same sampler (bytes "always_on") || same sampler (bytes "on") || same sampler []
      then always_sample
      else if same sampler (bytes "parentbased_always_on")
      then parent_based always_sample
      else if same sampler (bytes "parentbased_always_off")
      then parent_based never_sample
      else parent_based (ratio_based ratio)

  unfoldable pub log_shutdown : Option Error × Trace S → Trace S
  log_shutdown (none, t) = t
  log_shutdown (some e, t) = write_line error (bytes "shutdown tracing provider error: ") (some e) t

  -- The cleanup that Init returns.
  unfoldable pub shutdown_tracing : TracingConfig F → P → Trace S → Trace S
  unfolding log_shutdown
  shutdown_tracing cfg p t = log_shutdown (driver.shutdown (or_default (seconds 5) cfg.timeout) p t)

  unfoldable pub install :
      TracingConfig F → Result (R × X) → Trace S → Result (Trace S → Trace S) × Trace S
  unfolding shutdown_tracing new_sampler
  install cfg (err e) t = (err e, t)
  install cfg (ok (res, exporter)) t =
      let (p, t') = driver.set_provider exporter res (new_sampler cfg) t in
      (
        ok (shutdown_tracing cfg p),
        write_line info
            (bytes "tracing enabled: exporter="
              ++ (cfg.exporter ++ (bytes " endpoint=" ++ cfg.endpoint)))
            none t',
      )

  unfoldable pub service_name_of : Bytes → TracingConfig F → Bytes
  service_name_of app_name cfg =
      if same (trim_space cfg.service_name) [] then app_name else trim_space cfg.service_name

  -- Init; the configuration may be nil.
  unfoldable pub init_tracing :
      Option (TracingConfig F) → Bytes → Bytes → Trace S → Result (Trace S → Trace S) × Trace S
  unfolding install new_exporter service_name_of nothing
  init_tracing none app_name version t = (ok nothing, t)
  init_tracing (some cfg) app_name version t =
      if not cfg.enabled
      then (ok nothing, t)
      else install cfg
          (driver.new_resource (service_name_of app_name cfg) version >>= λ res.
            new_exporter cfg >>= λ exporter. ok (res, exporter))
          t
