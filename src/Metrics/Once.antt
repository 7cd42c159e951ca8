-- ===== src/Metrics/Once.antt =====
-- Any number of calls of Init.
use web_template_go.Prelude.{
  Bool-cases, ℕ, zero, suc, true, ◌↔◌, none, some, ◌≡◌, refl, inl, inr, arith,
}
use web_template_go.Errors.{Result, ok, err}
use web_template_go.Greeter.Trace.{Trace}
use web_template_go.Metrics.{
  Metrics, MetricsDriver, after_exporter, handler, handler_for, init_metrics, init_once,
  not_initialized,
}

module _ {E P S : Type 0} (d : MetricsDriver E P S) where
  -- The state behind `n` calls of Init.
  unfoldable pub init_times : ℕ → Metrics E P × Trace S → Metrics E P × Trace S
  init_times zero s = s
  init_times (suc n) s = let (r, m, t) = init_metrics d s in init_times n (m, t)

  after_exporter-done :
      (m : Metrics E P) (r : Result E × Trace S) → (after_exporter d m r).0.done ≡ true
  unfolding after_exporter
  after_exporter-done m (err e, t) = refl
  after_exporter-done m (ok x, t) = refl

  init_once-done : (s : Metrics E P × Trace S) → (init_once d s).0.done ≡ true
  unfolding init_once
  init_once-done (m, t) = elim (Bool-cases m.done) [
    | inl e ↦ rw (init_once, e) refl
    | inr e ↦ rw (init_once, e) (after_exporter-done m (d.new_exporter t))
  ]

  pub init_once_again : (s : Metrics E P × Trace S) → s.0.done ≡ true → init_once d s ≡ s
  unfolding init_once
  init_once_again (m, t) e = rw (init_once, e) refl

  init_times-done : (n : ℕ) (s : Metrics E P × Trace S) → s.0.done ≡ true → init_times n s ≡ s
  unfolding init_times init_metrics
  init_times-done zero s e = refl
  init_times-done (suc n) s e = rw (init_once_again s e) (init_times-done n s e)

  -- A handler of the metrics is there just when Init has no error.
  abbrev IsServed : Metrics E P → Type 0
  IsServed m = (m.init_err ≡ none) ↔ (handler tt m ≡ some tt)

  after_exporter-IsServed :
      (t : Trace S) (r : Result E × Trace S) → IsServed (after_exporter d not_initialized r).0
  unfolding after_exporter handler handler_for not_initialized
  after_exporter-IsServed t (err e, u) = (λ h. ground arith, λ h. ground arith)
  after_exporter-IsServed t (ok x, u) = (λ h. refl, λ h. refl)

  first-IsServed : (t : Trace S) → IsServed (init_once d (not_initialized, t)).0
  unfolding init_once not_initialized
  first-IsServed t = after_exporter-IsServed t (d.new_exporter t)

  -- From the start of the process, for any number of calls of Init: all return what the first one
  -- has returned; the calls behind the first change neither the variables of the package nor the
  -- outside, so that at most one exporter is made; and a handler of the metrics is there just when
  -- the first call has set no error.
  pub init_times_first :
      (n : ℕ) (t : Trace S)
      → let first = init_metrics d (not_initialized, t) in
        let s = init_times (suc n) (not_initialized, t) in
        (s ≡ (first.1, first.2))
        × ((init_metrics d s).0 ≡ first.0)
        × ((s.0.init_err ≡ none) ↔ (handler tt s.0 ≡ some tt))
  unfolding init_times init_metrics
  init_times_first n t =
      let s : Metrics E P × Trace S = init_once d (not_initialized, t) in
      let done = init_once-done (not_initialized, t) in
      rw (init_times-done n s done, init_once_again s done) (refl, refl, first-IsServed t)
