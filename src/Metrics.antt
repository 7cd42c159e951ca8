-- ===== src/Metrics.antt =====
-- internal/pkg/metricsx/metrics.go: the exporter of metrics, which is made at most once.
pub mod Once
use web_template_go.Errors.{Error, Result, ok, err}
use web_template_go.Greeter.Trace.{Trace, write_line, info}
use web_template_go.Text.{bytes}
use web_template_go.Prelude.{
  Option, none, some, Bool, true, false, ℕ, zero, suc, ◌+◌, ◌-◌, ◌<◌, ◌≤◌, List, [], ◌∷◌, ◌++◌, not,
  ◌↔◌, map, if◌then◌else◌, Bool-cases, Option-cases, sym, ap, ◌==◌, ◌∙◌, ◌≡◌, ◌≢◌, refl, ◌⊎◌, inl,
  inr, arith,
}

-- The Prometheus library: a new exporter, the provider that reads from it and is made the one of the
-- process, and its shutdown. `E` is an exporter and `P` a provider.
pub record MetricsDriver (E P S : Type 0) : Type 0 where
  pub new_exporter : Trace S → Result E × Trace S
  pub set_provider : E → Trace S → P × Trace S
  pub shutdown : P → Trace S → Trace S

-- The variables of the package; `done` tells whether initOnce has run.
pub record Metrics (E P : Type 0) : Type 0 where
  pub done : Bool
  pub init_err : Option Error
  pub exporter : Option E
  pub provider : Option P

unfoldable pub not_initialized : {E P : Type 0} → Metrics E P
not_initialized = record { done = false; init_err = none; exporter = none; provider = none }

-- Handler: none, or what promhttp.Handler gives.
unfoldable pub handler_for : {E H : Type 0} → H → Option E → Option H
handler_for h none = none
handler_for h (some e) = some h

unfoldable pub handler : {E P H : Type 0} → H → Metrics E P → Option H
unfolding handler_for
handler h m = handler_for h m.exporter

module _ {E P S : Type 0} (driver : MetricsDriver E P S) where
  unfoldable pub after_exporter : Metrics E P → Result E × Trace S → Metrics E P × Trace S
  after_exporter m (err e, t) = (record m { done = true; init_err = some e }, t)
  after_exporter m (ok exporter, t) =
      let (provider, t') = driver.set_provider exporter t in
      (
        record m { done = true; exporter = some exporter; provider = some provider },
        write_line info (bytes "prometheus metrics enabled") none t',
      )

  -- initOnce.Do: nothing, from the second call on.
  unfoldable pub init_once : Metrics E P × Trace S → Metrics E P × Trace S
  unfolding after_exporter
  init_once (m, t) = if m.done then (m, t) else after_exporter m (driver.new_exporter t)

  -- The cleanup that Init returns.
  unfoldable pub shutdown_provider : Option P → Trace S → Trace S
  shutdown_provider none t = t
  shutdown_provider (some p) t = driver.shutdown p t

  -- What Init returns, once initOnce has run.
  unfoldable pub init_result : Metrics E P → Result (Trace S → Trace S)
  unfolding shutdown_provider
  init_result m = elim m.init_err [ some e ↦ err e | none ↦ ok (shutdown_provider m.provider) ]

  -- Init
  unfoldable pub init_metrics :
      Metrics E P × Trace S → Result (Trace S → Trace S) × Metrics E P × Trace S
  unfolding init_once init_result
  init_metrics s = let (m, t) = init_once s in (init_result m, m, t)
