-- ===== src/Servers/Middleware/Order.antt =====
-- The order of the middlewares.
use web_template_go.Text.{Bytes}
use web_template_go.Metrics.{Metrics, MetricsDriver}
use web_template_go.Errors.{Error}
use web_template_go.Prelude.{
  List, [], ◌∷◌, ◌++◌, Bool, true, false, Option, none, some, if◌then◌else◌, sym, ap, ◌∙◌, ◌≡◌,
  refl, append-nil,
}
use web_template_go.Greeter.Trace.{Trace}
use web_template_go.Servers.Middleware.{
  Meters, ServerMiddleware, middleware_list, server_metrics_options, tracing_server, recovery,
  metadata_server, rate_limit, logging_server, proto_validate, server_metrics, is_on,
  common_middlewares,
}
use web_template_go.Remote.{MetricsOption, add_option, with_requests, with_seconds}

-- All middlewares from the outside in, and which of them the two configurations switch.
abbrev pub full_order : List MetricsOption → List ServerMiddleware
full_order options =
    tracing_server
    ∷ recovery
    ∷ metadata_server
    ∷ server_metrics options
    ∷ rate_limit
    ∷ logging_server
    ∷ proto_validate
    ∷ []

abbrev pub is_enabled : Bool → Bool → ServerMiddleware → Bool
is_enabled limited traced tracing_server = traced
is_enabled limited traced rate_limit = limited
is_enabled limited traced mw = true

unfoldable pub keep : {A : Type 0} → (A → Bool) → List A → List A
keep test [] = []
keep test (x ∷ xs) = let rest = keep test xs in if test x then x ∷ rest else rest

middleware_list-keep :
    (limited traced : Bool) (options : List MetricsOption)
    → middleware_list limited traced options ≡ keep (is_enabled limited traced) (full_order options)
unfolding middleware_list keep
middleware_list-keep true true options = refl
middleware_list-keep true false options = refl
middleware_list-keep false true options = refl
middleware_list-keep false false options = refl

-- A measurement that could be made.
abbrev pub unless : Option Error → MetricsOption → List MetricsOption
unless none option = option ∷ []
unless (some e) option = []

abbrev pub working_options : Meters → List MetricsOption
working_options meters =
    unless meters.requests_counter with_requests ++ unless meters.seconds_histogram with_seconds

add_option-unless :
    {S : Type 0} (failure : Bytes) (option : MetricsOption) (e : Option Error)
    (options : List MetricsOption) (t : Trace S)
    → (add_option failure option e (options, t)).0 ≡ options ++ unless e option
unfolding add_option
add_option-unless failure option none options t = refl
add_option-unless failure option (some e) options t = sym (append-nil options)

server_metrics_options-working :
    {S : Type 0} (meters : Meters) (t : Trace S)
    → (server_metrics_options meters t).0 ≡ working_options meters
unfolding server_metrics_options
server_metrics_options-working meters t =
    add_option-unless _ with_seconds meters.seconds_histogram _ _
    ∙ ap (λ options. options ++ unless meters.seconds_histogram with_seconds)
        (add_option-unless _ with_requests meters.requests_counter [] t)

-- The middlewares of a server are those of one fixed order that the configurations do not switch off:
-- the tracing one is outermost if tracing is configured and enabled, and the limit of rates stands
-- between the metrics and the log if it is. This holds whatever the initialisation of the metrics
-- returns; the middleware of the metrics measures what could be made of its two instruments.
pub common_middlewares-keep :
    {E P S : Type 0} (metrics : MetricsDriver E P S) (meters : Meters) (limit tracing : Option Bool)
    (s : Metrics E P × Trace S)
    → (common_middlewares metrics meters limit tracing s).0
      ≡ keep (is_enabled (is_on limit) (is_on tracing)) (full_order (working_options meters))
unfolding common_middlewares
common_middlewares-keep metrics meters limit tracing s =
    ap (middleware_list (is_on limit) (is_on tracing)) (server_metrics_options-working meters _)
    ∙ middleware_list-keep (is_on limit) (is_on tracing) (working_options meters)
