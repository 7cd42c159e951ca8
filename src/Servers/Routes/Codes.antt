-- ===== src/Servers/Routes/Codes.antt =====
-- The status codes of the routes.
use web_template_go.Prelude.{ℕ, Bool, Option, none, some, if◌then◌else◌, ◌≡◌, refl, ◌⊎◌, inl, inr}
use web_template_go.Metrics.{Metrics, handler, handler_for}
use web_template_go.Servers.Routes.{
  Route, metrics_answer, serve, healthz, readyz_route, meta, metrics_route, Body, page,
}
use web_template_go.Text.{Bytes, is_some}
use web_template_go.System.{Probes, SystemService, is_ready, readiness_status, readyz}

readyz_code :
    (s : SystemService) (now : ℕ) (p : Probes)
    → (readyz s now p).0.0 ≡ (if (is_ready s now p).0 then 200 else 503)
unfolding readyz readiness_status is_ready
readyz_code s now p = refl

readyz-service :
    (s : SystemService) (now : ℕ) (p : Probes) → (readyz s now p).1 ≡ (is_ready s now p).1
unfolding readyz readiness_status is_ready
readyz-service s now p = refl

-- What /metrics answers, with an exporter or without.
abbrev pub MetricsAnswer : {H : Type 0} → (H → ℕ) → H → Bool → ℕ × Body H → Type 0
MetricsAnswer status h ready r = if ready then r ≡ (status h, page h) else r.0 ≡ 503

metrics_answer-MetricsAnswer :
    {E H : Type 0} (status : H → ℕ) (h : H) (exporter : Option E)
    → MetricsAnswer status h (is_some exporter) (metrics_answer status (handler_for h exporter))
unfolding metrics_answer handler_for is_some
metrics_answer-MetricsAnswer status h none = refl
metrics_answer-MetricsAnswer status h (some x) = refl

-- The code and the body that a route promises, for a service that is ready or not, and with an
-- exporter or without.
unfoldable pub Promised :
    {H : Type 0} → (H → ℕ) → H → Route → (ready has_exporter : Bool) → ℕ × Body H → Type 0
Promised status h healthz ready has_exporter r = r.0 ≡ 200
Promised status h meta ready has_exporter r = r.0 ≡ 200
Promised status h readyz_route ready has_exporter r = r.0 ≡ (if ready then 200 else 503)
Promised status h metrics_route ready has_exporter r = MetricsAnswer status h has_exporter r

-- /healthz and /meta answer with 200; /readyz with 200 if the service is ready and else with 503;
-- /metrics with 503 if there is no exporter, and else the library's handler answers. Only /readyz
-- changes the service, in the way that IsReady does.
pub serve-code :
    {E P H : Type 0} (format : ℕ → Bytes) (status : H → ℕ) (h : H) (route : Route) (now : ℕ)
    (p : Probes) (m : Metrics E P) (s : SystemService)
    → let r = serve format status h route now p m s in
      Promised status h route (is_ready s now p).0 (is_some m.exporter) r.0
      × ((r.1 ≡ s) ⊎ ((route ≡ readyz_route) × (r.1 ≡ (is_ready s now p).1)))
unfolding serve Promised handler
serve-code format status h healthz now p m s = (refl, inl refl)
serve-code format status h meta now p m s = (refl, inl refl)
serve-code format status h metrics_route now p m s =
    (metrics_answer-MetricsAnswer status h m.exporter, inl refl)
serve-code format status h readyz_route now p m s =
    (readyz_code s now p, inr (refl, readyz-service s now p))
