-- ===== src/Servers/Middleware.antt =====
-- commonMiddlewares of internal/server/middleware.go
pub mod Order
use web_template_go.Prelude.{
  ℕ, zero, suc, ◌+◌, ◌-◌, ◌<◌, ◌≤◌, List, [], ◌∷◌, ◌++◌, Bool, true, false, not, ◌↔◌, map, Option,
  none, some, if◌then◌else◌, Bool-cases, Option-cases, sym, ap, ◌==◌, ◌∙◌, ◌≡◌, ◌≢◌, refl, ◌⊎◌, inl,
  inr, arith,
}
use web_template_go.Errors.{Error, Result, ok, err}
use web_template_go.Text.{bytes}
use web_template_go.Metrics.{Metrics, MetricsDriver, init_metrics}
use web_template_go.Greeter.Trace.{Trace, info, warn, write_line}
use web_template_go.Remote.{MetricsOption, with_requests, with_seconds, add_option}

pub data ServerMiddleware : Type 0 where
  tracing_server recovery metadata_server rate_limit logging_server proto_validate :
      ServerMiddleware
  server_metrics : List MetricsOption → ServerMiddleware

-- What the OpenTelemetry library returns for the counter of requests and the histogram of seconds.
pub record Meters : Type 0 where
  pub requests_counter : Option Error
  pub seconds_histogram : Option Error

-- `cfg != nil && cfg.Enabled`, for a pointer to a configuration of which only that field counts.
unfoldable pub is_on : Option Bool → Bool
is_on none = false
is_on (some enabled) = enabled

unfoldable pub middleware_list : Bool → Bool → List MetricsOption → List ServerMiddleware
middleware_list limited traced options =
    let mws = recovery ∷ metadata_server ∷ server_metrics options ∷ [] in
    let mws = if limited then mws ++ rate_limit ∷ [] else mws in
    let mws = mws ++ logging_server ∷ proto_validate ∷ [] in
    if traced then tracing_server ∷ mws else mws

module _ {S : Type 0} where
  unfoldable pub warn_metrics : {A : Type 0} → Result A → Trace S → Trace S
  warn_metrics (ok cleanup) t = t
  warn_metrics (err e) t = write_line warn (bytes "init metrics failed: ") (some e) t

  unfoldable pub server_metrics_options : Meters → Trace S → List MetricsOption × Trace S
  server_metrics_options meters t =
      add_option (bytes "init server metrics seconds histogram failed: ") with_seconds
        meters.seconds_histogram
        (add_option (bytes "init server metrics request counter failed: ") with_requests
          meters.requests_counter ([], t))

module _ {E P S : Type 0} (metrics : MetricsDriver E P S) (meters : Meters) where
  -- The first pointer is the middleware configuration, the second the one of tracing.
  unfoldable pub common_middlewares :
      Option Bool
      → Option Bool
      → Metrics E P × Trace S
      → List ServerMiddleware × Metrics E P × Trace S
  unfolding middleware_list warn_metrics server_metrics_options is_on
  common_middlewares limit tracing s =
      let (r, m, t) = init_metrics metrics s in
      let (options, t') = server_metrics_options meters (warn_metrics r t) in
      (middleware_list (is_on limit) (is_on tracing) options, m, t')
