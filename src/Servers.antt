-- ===== src/Servers.antt =====
-- internal/server: the servers that the program makes of its configuration. What they are made with
-- is recorded; the servers themselves belong to the libraries.
pub mod Middleware
pub mod Queues
pub mod Start
pub mod Routes
use web_template_go.Errors.{ok, err, Result, Error}
use web_template_go.Prelude.{
  ℕ, zero, suc, ◌+◌, ◌-◌, ◌<◌, ◌≤◌, List, [], ◌∷◌, ◌++◌, Bool, true, false, not, ◌↔◌, map, Option,
  none, some, if◌then◌else◌, Bool-cases, Option-cases, sym, ap, ◌==◌, ◌∙◌, ◌≡◌, ◌≢◌, refl, ◌⊎◌, inl,
  inr, arith,
}
use web_template_go.Databases.{is_positive, ℤ}
use web_template_go.Greeter.Trace.{Trace, info, write_line}
use web_template_go.Servers.Middleware.{Meters, ServerMiddleware, common_middlewares}
use web_template_go.Metrics.{Metrics, MetricsDriver}
use web_template_go.Text.{Bytes, bytes, same}

-- GRPCConfig and HTTPConfig, which have the same fields.
pub record NetConfig : Type 0 where
  pub enabled : Bool
  pub network : Bytes
  pub addr : Bytes
  pub timeout : ℤ

-- grpc.ServerOption and http.ServerOption
pub data ServerOption : Type 0 where
  with_middleware : List ServerMiddleware → ServerOption
  with_network with_address : Bytes → ServerOption
  with_timeout : ℤ → ServerOption

abbrev option_if : Bool → ServerOption → List ServerOption
option_if test option = if test then option ∷ [] else []

-- The options of NewGRPCServer, and those of NewHTTPServer.
unfoldable pub server_options : NetConfig → List ServerMiddleware → List ServerOption
server_options c mws =
    with_middleware mws ∷ option_if (not (same c.network [])) (with_network c.network)
    ++ (option_if (not (same c.addr [])) (with_address c.addr)
        ++ option_if (is_positive c.timeout) (with_timeout c.timeout))

module _ {E P S : Type 0} (metrics : MetricsDriver E P S) (meters : Meters) where
  unfoldable pub new_grpc_server :
      Option NetConfig
      → Option Bool
      → Option Bool
      → Metrics E P × Trace S
      → Option (List ServerOption) × Metrics E P × Trace S
  unfolding server_options common_middlewares
  new_grpc_server none rate_limit tracing (m, t) =
      (none, m, write_line info (bytes "grpc server disabled, skip initialization") none t)
  new_grpc_server (some c) rate_limit tracing (m, t) =
      let (mws, m', t') = common_middlewares metrics meters rate_limit tracing (m, t) in
      if not c.enabled
      then (none, m, write_line info (bytes "grpc server disabled, skip initialization") none t)
      else (some (server_options c mws), m', t')

  unfoldable pub new_http_server :
      Option NetConfig
      → Option Bool
      → Option Bool
      → Metrics E P × Trace S
      → Option (List ServerOption) × Metrics E P × Trace S
  unfolding server_options common_middlewares
  new_http_server none rate_limit tracing (m, t) =
      (none, m, write_line info (bytes "http server disabled, skip initialization") none t)
  new_http_server (some c) rate_limit tracing (m, t) =
      let (mws, m', t') = common_middlewares metrics meters rate_limit tracing (m, t) in
      if not c.enabled
      then (none, m, write_line info (bytes "http server disabled, skip initialization") none t)
      else (some (server_options c mws), m', t')
