-- ===== src/Main/Closed.antt =====
-- Whatever way main ends, what it has opened is closed.
use web_template_go.Messaging.{Brokers, RabbitMqPublisher}
use web_template_go.Messaging.Balance.{
  IsGrown, new_IsGrown, IsBrokers, publish_each, publish_each-IsLive,
}
use web_template_go.Greeter.Trace.{Trace, write_line, Line}
use web_template_go.Scaffold.Disk.{World}
use web_template_go.Prelude.{
  Bool-cases, true, Option, none, some, sym, ◌∙◌, ◌≡◌, refl, inl, inr, subst, ℕ, Bool, false, List,
}
use web_template_go.Errors.{Error, Result, ok, err}
use web_template_go.Wire.Balance.{IsUndoable, StaysIn, Undoes}
use web_template_go.Text.{Bytes, Unicode, is_some}
use web_template_go.Logging.{new_with_options}
use web_template_go.Wire.Program.{WebApp, Process, beside}
use web_template_go.Databases.{nothing, ℤ}
use web_template_go.Main.{
  Bootstrap, Exit, after_load, app_config, cleanup_only, deferring, exit_of, load_bootstrap,
  run_main, serve_app, start_metrics, start_tracing, Program, beside,
}
use web_template_go.Metrics.{
  Metrics, MetricsDriver, after_exporter, init_metrics, init_once, init_result, not_initialized,
  shutdown_provider,
}
use web_template_go.Wire.Program.Balance.{
  AreDrivers, holds, IsUnused, IsDone, IsRestored, IsRunning, beside-IsRestored,
  wire_program-Undoes,
}
use web_template_go.Tracing.{
  TracingConfig, TracingDriver, init_tracing, install, log_shutdown, new_sampler, shutdown_tracing,
  Sampler,
}

-- OpenTelemetry: Shutdown of a provider that has been set leads back to before.
pub record IsTracingDriver {F R X P S : Type 0} (d : TracingDriver F R X P S) : Type 0 where
  pub sets :
      (exporter : X) (res : R) (sampler : Sampler F) (t v : Trace S) (timeout : ℤ)
      → v.outside ≡ (d.set_provider exporter res sampler t).1.outside
      → let p = (d.set_provider exporter res sampler t).0 in
        (d.shutdown timeout p v).1.outside ≡ t.outside

-- What holds of a new exporter or its error: the error has left nothing open, and to set a provider
-- and then shut it down, from `v`, leads back to `t`.
abbrev pub IsProvided :
    {E P S : Type 0} → MetricsDriver E P S → Trace S → Trace S → Result E → Trace S → Type 0
IsProvided d t v (err e) u = u.outside ≡ t.outside
IsProvided d t v (ok exporter) u =
    v.outside ≡ (d.set_provider exporter u).1.outside
    → (d.shutdown (d.set_provider exporter u).0 v).outside ≡ t.outside

-- The Prometheus library: no exporter leaves nothing open, and Shutdown of the provider of an
-- exporter that has been made leads back to before there was one.
pub record IsMetricsDriver {E P S : Type 0} (d : MetricsDriver E P S) : Type 0 where
  pub sets : (t v : Trace S) → let (r, u) = d.new_exporter t in IsProvided d t v r u

deferring-Back :
    {S A : Type 0} (Near Back : S → S → Type 0) (Inv : S → Type 0) (s : S)
    (r : Result (A × (S → S)) × S) (rest : A → S → Exit × S)
    → Undoes Near Back s r × StaysIn Inv r
    → ((a : A) (u : S) → Inv u → Near u (rest a u).1)
    → Back s (deferring r rest).1
unfolding deferring
deferring-Back Near Back Inv s (err e, u) rest h k = h.0
deferring-Back Near Back Inv s (ok (a, cleanup), u) rest h k = h.0 (rest a u).1 (k a u h.1)

exit_of-state : {S : Type 0} (r : Option Error × S) → (exit_of r).1 ≡ r.1
unfolding exit_of
exit_of-state (none, s) = refl
exit_of-state (some e, s) = refl

module _ {F R X P S : Type 0} (d : TracingDriver F R X P S) (tables : Unicode) where
  log_shutdown-outside :
      (r : Option Error × Trace S) → (log_shutdown d tables r).outside ≡ r.1.outside
  unfolding log_shutdown write_line
  log_shutdown-outside (none, t) = refl
  log_shutdown-outside (some e, t) = refl

  install-IsUndoable :
      (cfg : TracingConfig F) (made : Result (R × X)) (t : Trace S)
      → IsTracingDriver d
      → IsUndoable (λ u. u.outside) t (cleanup_only (install d tables cfg made t))
  unfolding install cleanup_only shutdown_tracing write_line
  install-IsUndoable cfg (err e) t laws = refl
  install-IsUndoable cfg (ok (res, exporter)) t laws =
      λ v p. log_shutdown-outside _ ∙ laws.sets exporter res (new_sampler d tables cfg) t v _ p

  init_tracing-IsUndoable :
      (cfg : TracingConfig F) (name version : Bytes) (t : Trace S)
      → IsTracingDriver d
      → IsUndoable
          (λ u. u.outside)
          t
          (cleanup_only (init_tracing d tables (some cfg) name version t))
  unfolding init_tracing cleanup_only nothing
  init_tracing-IsUndoable cfg name version t laws = elim (Bool-cases cfg.enabled) [
    | inr e ↦ rw (init_tracing, e) (λ v p. p)
    | inl e ↦ rw (init_tracing, e) (install-IsUndoable (record cfg { enabled = true }) _ t laws)
  ]

module _ {E P B T S : Type 0} (d : MetricsDriver E P S) (laws : IsMetricsDriver d) (id : B → ℕ)
    (opens : T → ℕ → Bool) where
  after_exporter-Undoes :
      (s : Process E P B T S) (r : Result E) (u : Trace S)
      → ((v : Trace S) → IsProvided d s.trace v r u)
      → ((i : ℕ) → holds id i s.publisher ≡ false)
      → let (m, w) = after_exporter d not_initialized (r, u) in
        let end = beside (record s { metrics = m }) (cleanup_only (init_result d m, w)) in
        Undoes (IsRestored id opens) (IsRestored id opens) s end × StaysIn (IsUnused IsDone id) end
  unfolding after_exporter not_initialized init_result cleanup_only shutdown_provider write_line
      beside
  after_exporter-Undoes s (err e) u h free = ((h u, λ i. refl), tt)
  after_exporter-Undoes s (ok exporter) u h free = (λ v (p, q). (h v.trace p, q), (refl, free))

-- What the messages that are published while the app runs do to the publisher that is there and to
-- the connections to RabbitMQ: they are calls of Publish, one after the other; without a publisher
-- they do nothing.
abbrev pub HasPublished :
    {B M T : Type 0}
    → Brokers B M T
    → Option (RabbitMqPublisher B)
    → T
    → Option (RabbitMqPublisher B)
    → T
    → Type 0
HasPublished brokers none t publisher u = (publisher ≡ none) × (u ≡ t)
HasPublished {M = M} brokers (some p) t publisher u =
    (messages : List (Bytes × Bytes × M)) × (log : List Line) × (publisher
      ≡ some (publish_each brokers messages (p, record { outside = t; log = log })).0)
    × (u ≡ (publish_each brokers messages (p, record { outside = t; log = log })).1.outside)

-- The laws of the libraries, and of app.Run: when it returns, what it has opened is closed, but for
-- the brokers that the messages which it has published have connected.
pub record IsProgram {F TR X TP O K R C B M P D N E MP T S : Type 0}
    (program : Program F TR X TP O K R C B M P D N E MP T S) (id : B → ℕ) (opens : T → ℕ → Bool)
    : Type 0 where
  pub tracing : IsTracingDriver program.tracing
  pub metrics : IsMetricsDriver program.drivers.metrics
  pub drivers : AreDrivers program.drivers id opens
  pub runs :
      (app : WebApp R P D N S) (s : Process E MP B T S)
      → let v = (program.run_app app s).1 in
        (v.trace.outside ≡ s.trace.outside)
        × HasPublished program.drivers.brokers s.publisher s.brokers v.publisher v.brokers

module _ {B M T : Type 0} (brokers : Brokers B M T) (id : B → ℕ) (opens : T → ℕ → Bool)
    (laws : IsBrokers brokers id opens) where
  HasPublished-IsGrown :
      (publisher : Option (RabbitMqPublisher B)) (t : T) (after : Option (RabbitMqPublisher B))
      (u : T)
      → ((i : ℕ) → holds id i publisher ≡ false)
      → HasPublished brokers publisher t after u
      → (is_some after ≡ is_some publisher)
        × ((i : ℕ) → IsGrown (opens t i) (opens u i) (holds id i after))
  unfolding holds is_some
  HasPublished-IsGrown none t after u free (p, q) = rw (p, q) (refl, λ i. new_IsGrown (opens t i))
  HasPublished-IsGrown (some publisher) t after u free (messages, log, p, q) =
      rw (p, q)
        (
          refl,
          λ i.
              publish_each-IsLive brokers id opens laws t i messages publisher _
                (rw (free i) (new_IsGrown (opens t i))),
        )

module _ {F TR X TP O K R C B M P D N E MP T S : Type 0}
    (program : Program F TR X TP O K R C B M P D N E MP T S) (id : B → ℕ) (opens : T → ℕ → Bool)
    (laws : IsProgram program id opens) where
  abbrev IsFirst : Metrics E MP → Type 0
  IsFirst m = m ≡ not_initialized

  abbrev Restored : Process E MP B T S → Process E MP B T S → Type 0
  Restored = IsRestored id opens

  start_tracing-Undoes :
      (cfg : TracingConfig F) (s : Process E MP B T S)
      → IsUnused IsFirst id s
      → Undoes Restored Restored s (start_tracing program cfg s)
        × StaysIn (IsUnused IsFirst id) (start_tracing program cfg s)
  unfolding start_tracing
  start_tracing-Undoes cfg s first =
      beside-IsRestored id opens IsFirst s _
        (init_tracing-IsUndoable program.tracing program.tables cfg program.name program.version
          s.trace laws.tracing)
        first

  start_first_metrics :
      (s : Process E MP B T S)
      → ((i : ℕ) → holds id i s.publisher ≡ false)
      → let first : Process E MP B T S = record s { metrics = not_initialized } in
        Undoes Restored Restored first (start_metrics program first)
        × StaysIn (IsUnused IsDone id) (start_metrics program first)
  unfolding start_metrics init_metrics init_once not_initialized
  start_first_metrics s free =
      after_exporter-Undoes program.drivers.metrics laws.metrics id opens
        (record s { metrics = not_initialized }) (program.drivers.metrics.new_exporter s.trace).0
        (program.drivers.metrics.new_exporter s.trace).1 (laws.metrics.sets s.trace) free

  start_metrics-Undoes :
      (s : Process E MP B T S)
      → IsUnused IsFirst id s
      → Undoes Restored Restored s (start_metrics program s)
        × StaysIn (IsUnused IsDone id) (start_metrics program s)
  start_metrics-Undoes s (first, free) =
      subst
        (λ m.
          let u : Process E MP B T S = record s { metrics = m } in
          Undoes Restored Restored u (start_metrics program u)
          × StaysIn (IsUnused IsDone id) (start_metrics program u))
        (sym first) (start_first_metrics s free)

  run_app-IsRunning :
      (app : WebApp R P D N S) (s : Process E MP B T S)
      → IsUnused IsDone id s
      → IsRunning id opens s (exit_of (program.run_app app s)).1
  run_app-IsRunning app s (_, free) =
      let (p, q) = laws.runs app s in
      let (same_clients, grown) =
        HasPublished-IsGrown program.drivers.brokers id opens laws.drivers.brokers s.publisher
          s.brokers _ _ free q in
      rw (exit_of-state (program.run_app app s)) (p, same_clients, grown)

  serve_app-Restored :
      (bc : Bootstrap F) (s : Process E MP B T S)
      → IsUnused IsFirst id s
      → Restored s (serve_app program bc s).1
  unfolding serve_app
  serve_app-Restored bc s first =
      deferring-Back Restored Restored (IsUnused IsFirst id) s _ _
        (start_tracing-Undoes bc.tracing s first)
        λ a u first.
          deferring-Back Restored Restored (IsUnused IsDone id) u _ _ (start_metrics-Undoes u first)
            λ b v done.
              deferring-Back (IsRunning id opens) Restored (IsUnused IsDone id) v _ _
                (wire_program-Undoes program.drivers id opens (app_config bc)
                  (new_with_options program.tables bc.logger) laws.drivers v done)
                run_app-IsRunning

  after_load-Restored :
      (overrides : Bootstrap F → Bootstrap F) (r : Result (Bootstrap F)) (s : Process E MP B T S)
      → IsUnused IsFirst id s
      → Restored s (after_load program overrides r s).1
  unfolding after_load
  after_load-Restored overrides (err e) s first = (refl, λ i. refl)
  after_load-Restored overrides (ok bc) s first = serve_app-Restored (overrides bc) s first

  -- Under the laws of the libraries, and if app.Run leaves nothing open but the brokers that Publish
  -- has connected while it ran: however main ends, by a return or by a panic at any of its steps,
  -- nothing that it has opened is open any more; tracing, metrics, all resources of wireApp and all
  -- brokers that have been connected are closed, whatever the configuration and the messages.
  pub run_main-outside :
      (unmarshal : Bytes → Result (Bootstrap F)) (overrides : Bootstrap F → Bootstrap F)
      (flagconf : Bytes) (w : World) (t : Trace S) (connections : T)
      → let end = (run_main program unmarshal overrides flagconf w t connections).1 in
        (end.trace.outside ≡ t.outside) × ((i : ℕ) → opens end.brokers i ≡ opens connections i)
  unfolding run_main holds
  run_main-outside unmarshal overrides flagconf w t connections =
      after_load-Restored overrides (load_bootstrap unmarshal flagconf w).0
        (record { metrics = not_initialized; trace = t; publisher = none; brokers = connections })
        (refl, λ i. refl)
