-- ===== src/Remote.antt =====
-- internal/pkg/grpcx: the client of the remote greeter, from client.go, and its configuration.
pub mod Balance
use web_template_go.Text.{bytes, same, Bytes}
use web_template_go.Databases.{Connection, is_positive, nothing, ℤ}
use web_template_go.Errors.{Error, Result, ok, err, message}
use web_template_go.Greeter.Trace.{Trace, write_line, info, warn}
use web_template_go.Prelude.{
  [], ◌∷◌, ◌++◌, Bool, not, Option, none, some, if◌then◌else◌, ℕ, zero, suc, ◌+◌, ◌-◌, ◌<◌, ◌≤◌,
  List, true, false, ◌↔◌, map, Bool-cases, Option-cases, sym, ap, ◌==◌, ◌∙◌, ◌≡◌, ◌≢◌, refl, ◌⊎◌,
  inl, inr, arith,
}

pub record ServiceConfig : Type 0 where
  pub enabled : Bool
  pub target : Bytes
  pub timeout : ℤ
  pub circuitbreaker_enabled : Bool

-- What the metrics middleware measures with: requests, seconds.
pub data MetricsOption : Type 0 where
  with_requests with_seconds : MetricsOption

pub data ClientMiddleware : Type 0 where
  client_metrics : List MetricsOption → ClientMiddleware
  circuit_breaker : ClientMiddleware

unfoldable pub build_client_middlewares : ServiceConfig → List MetricsOption → List ClientMiddleware
build_client_middlewares cfg options =
    client_metrics options ∷ (if cfg.circuitbreaker_enabled then circuit_breaker ∷ [] else [])

-- kratos: the counter and the histogram, of which each may fail; a connection to a target with its
-- timeout and its middlewares, and Close. `C` is the connection.
pub record RemoteDriver (C S : Type 0) : Type 0 where
  pub requests_counter : Option Error
  pub seconds_histogram : Option Error
  pub dial : Bytes → ℤ → List ClientMiddleware → Trace S → Result C × Trace S
  pub close : C → Trace S → Option Error × Trace S

module _ {S : Type 0} where
  -- `if err != nil { warn } else { append }`
  unfoldable pub add_option :
      Bytes
      → MetricsOption
      → Option Error
      → List MetricsOption × Trace S
      → List MetricsOption × Trace S
  add_option failure option none (options, t) = (options ++ option ∷ [], t)
  add_option failure option (some e) (options, t) = (options, write_line warn failure (some e) t)

module _ {C S : Type 0} (driver : RemoteDriver C S) where
  unfoldable pub metrics_options : Trace S → List MetricsOption × Trace S
  unfolding add_option
  metrics_options t =
      add_option (bytes "init client metrics seconds histogram failed: ") with_seconds
        driver.seconds_histogram
        (add_option (bytes "init client metrics request counter failed: ") with_requests
          driver.requests_counter ([], t))

  unfoldable pub warn_close : Option Error × Trace S → Trace S
  warn_close (none, t) = t
  warn_close (some e, t) = write_line warn (bytes "close remote grpc client failed: ") (some e) t

  unfoldable pub close_remote : C → Trace S → Trace S
  unfolding warn_close
  close_remote conn t = warn_close (driver.close conn t)

  unfoldable pub after_dial : ServiceConfig → Result C × Trace S → Connection C S
  unfolding close_remote
  after_dial cfg (err e, t) = (err e, t)
  after_dial cfg (ok conn, t) = (
    ok (some conn, close_remote conn),
    write_line info (bytes "remote grpc client connected service=greeter target=" ++ cfg.target)
        none t,
  )

  unfoldable pub dial_greeter : ServiceConfig → List MetricsOption × Trace S → Connection C S
  unfolding after_dial
  dial_greeter cfg (options, t) =
      after_dial cfg (driver.dial cfg.target cfg.timeout (build_client_middlewares cfg options) t)

  unfoldable pub new_greeter_client : ServiceConfig → Trace S → Connection C S
  unfolding dial_greeter metrics_options nothing
  new_greeter_client cfg t =
      if not cfg.enabled
      then (
        ok (none, nothing),
        write_line info (bytes "remote grpc client disabled, skip initialization") none t,
      )
      else if same cfg.target []
      then (err (message (bytes "data.remote_grpc.greeter.target is required when enabled")), t)
      else if not (is_positive cfg.timeout)
      then (err (message (bytes "data.remote_grpc.greeter.timeout must be > 0 when enabled")), t)
      else dial_greeter cfg (metrics_options t)
