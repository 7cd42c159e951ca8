-- ===== src/Servers/Routes.antt =====
-- The routes of NewHTTPServer in internal/server/http.go, besides the generated ones of the greeter.
pub mod Codes
use web_template_go.Prelude.{ℕ, [], Option, none, some, if◌then◌else◌}
use web_template_go.Metrics.{Metrics, handler}
use web_template_go.System.{Probes, SystemService, liveness, metadata, readyz}
use web_template_go.System.Table.{Checks, insert}
use web_template_go.Text.{Bytes, bytes, same}

-- What a handler of a route answers: a map of texts, a status with checks, or the page of the
-- exporter `H`.
pub data Body (H : Type 0) : Type 0 where
  table : Checks → Body H
  with_checks : Bytes → Checks → Body H
  page : H → Body H

pub data Route : Type 0 where
  healthz readyz_route meta metrics_route : Route

unfoldable pub find_route : Bytes → Option Route
find_route path =
    if same path (bytes "/healthz")
    then some healthz
    else if same path (bytes "/readyz")
    then some readyz_route
    else if same path (bytes "/meta")
    then some meta
    else if same path (bytes "/metrics")
    then some metrics_route
    else none

unfoldable pub no_exporter : Checks
no_exporter =
    insert (bytes "message") (bytes "metrics exporter is not initialized")
      (insert (bytes "status") (bytes "error") [])

-- The handler of /metrics; `status` is the code with which the handler of the Prometheus library
-- answers.
unfoldable pub metrics_answer : {H : Type 0} → (H → ℕ) → Option H → ℕ × Body H
unfolding no_exporter
metrics_answer status none = (503, table no_exporter)
metrics_answer status (some h) = (status h, page h)

-- The four handlers, for a time, what the probes find, the state of the metrics, and the print of
-- times in UTC by RFC 3339, which is a parameter.
unfoldable pub serve :
    {E P H : Type 0}
    → (ℕ → Bytes)
    → (H → ℕ)
    → H
    → Route
    → ℕ
    → Probes
    → Metrics E P
    → SystemService
    → (ℕ × Body H) × SystemService
unfolding metrics_answer
serve format status h healthz now p m s = ((200, table liveness), s)
serve format status h readyz_route now p m s =
    let ((code, text, checks), s') = readyz s now p in ((code, with_checks text checks), s')
serve format status h meta now p m s = ((200, table (metadata format s)), s)
serve format status h metrics_route now p m s = (metrics_answer status (handler h m), s)
