-- ===== src/Tracing/Laws.antt =====
-- Tracing without an endpoint.
use web_template_go.Greeter.Trace.{Trace}
use web_template_go.Prelude.{Bool-cases, [], ◌++◌, true, false, some, ◌≡◌, refl, inl, inr, ◌||◌}
use web_template_go.Errors.{Error, Result, ok, err, ◌>>=◌, message}
use web_template_go.Tracing.{
  TracingConfig, TracingDriver, at_endpoint, init_tracing, install, new_exporter,
  new_otlp_grpc_exporter, new_otlp_http_exporter, new_zipkin_exporter, service_name_of,
}
use web_template_go.Text.{Bytes, Unicode, bytes, same, to_lower, trim_space}

module _ {F R X P S : Type 0} (driver : TracingDriver F R X P S) (tables : Unicode)
    (cfg : TracingConfig F) (blank : trim_space cfg.endpoint ≡ []) where
  at_endpoint_blank :
      (name : Bytes) (made : Result X)
      → (e : Error) × (at_endpoint driver tables name made cfg ≡ err e)
  unfolding at_endpoint same
  at_endpoint_blank name made = (
    message (bytes "tracing.endpoint is required for " ++ (name ++ bytes " exporter")),
    rw (at_endpoint, blank) refl,
  )

  new_exporter_blank :
      same (to_lower tables (trim_space cfg.exporter)) (bytes "stdout") ≡ false
      → (e : Error) × (new_exporter driver tables cfg ≡ err e)
  unfolding new_exporter new_otlp_grpc_exporter new_otlp_http_exporter new_zipkin_exporter
  new_exporter_blank h =
      let word = to_lower tables (trim_space cfg.exporter) in
      elim (Bool-cases
        (same word [] || same word (bytes "otlp_grpc") || same word (bytes "otlp-grpc"))) [
          | inl e ↦ rw e (at_endpoint_blank (bytes "otlp_grpc") _)
          | inr e ↦
              elim (Bool-cases (same word (bytes "otlp_http") || same word (bytes "otlp-http"))) [
                | inl f ↦ rw (e, f) (at_endpoint_blank (bytes "otlp_http") _)
                | inr f ↦ elim (Bool-cases (same word (bytes "zipkin"))) [
                  | inl g ↦ rw (e, f, g) (at_endpoint_blank (bytes "zipkin") _)
                  | inr g ↦
                      rw (e, f, g, h)
                        (message (bytes "unsupported tracing exporter: " ++ cfg.exporter), refl)
                ]
              ]
        ]

  install-err :
      (r : Result R) (x : Result X) (t : Trace S)
      → ((e : Error) × (x ≡ err e))
      → (e : Error) × (install driver tables cfg
            (r >>= λ res. x >>= λ exporter. ok (res, exporter))
            t
          ≡ (err e, t))
  unfolding install
  install-err (err e) x t h = (e, refl)
  install-err (ok res) x t (e, q) = (e, rw q refl)

  -- If tracing is enabled, its endpoint is blank, and its exporter is not stdout in any mix of cases,
  -- then Init fails, with nothing logged and nothing changed outside.
  pub init_tracing_blank :
      (app_name version : Bytes) (t : Trace S)
      → cfg.enabled ≡ true
      → same (to_lower tables (trim_space cfg.exporter)) (bytes "stdout") ≡ false
      → (e : Error) × (init_tracing driver tables (some cfg) app_name version t ≡ (err e, t))
  unfolding init_tracing
  init_tracing_blank app_name version t on h =
      rw (init_tracing, on)
        (install-err (driver.new_resource (service_name_of driver tables app_name cfg) version)
          (new_exporter driver tables cfg) t (new_exporter_blank h))
