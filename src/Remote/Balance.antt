-- ===== src/Remote/Balance.antt =====
-- The connection to the remote greeter is closed again.
use web_template_go.Greeter.Trace.{Trace, write_line}
use web_template_go.Remote.{
  ClientMiddleware, MetricsOption, RemoteDriver, ServiceConfig, add_option, after_dial,
  dial_greeter, metrics_options, new_greeter_client, warn_close, close_remote, with_seconds,
  with_requests, build_client_middlewares,
}
use web_template_go.Text.{Bytes, same}
use web_template_go.Prelude.{Bool-cases, List, [], Option, none, some, ◌∙◌, ◌≡◌, refl, inl, inr}
use web_template_go.Errors.{Error, Result, ok, err}
use web_template_go.Databases.{is_positive, nothing, ℤ}
use web_template_go.Databases.Balance.{IsBalanced, IsBalanced-from, Opened}

-- The connection that dial opens is closed by Close.
pub record IsRemoteDriver {C S : Type 0} (d : RemoteDriver C S) : Type 0 where
  pub dials :
      (target : Bytes) (timeout : ℤ) (mws : List ClientMiddleware) (t : Trace S)
      → Opened d.close t (d.dial target timeout mws t)

pub add_option-outside :
    {S : Type 0} (failure : Bytes) (option : MetricsOption) (e : Option Error)
    (r : List MetricsOption × Trace S)
    → (add_option failure option e r).1.outside ≡ r.1.outside
unfolding add_option write_line
add_option-outside failure option none r = refl
add_option-outside failure option (some e) r = refl

module _ {C S : Type 0} (d : RemoteDriver C S) where
  warn_close-outside : (r : Option Error × Trace S) → (warn_close d r).outside ≡ r.1.outside
  unfolding warn_close write_line
  warn_close-outside (none, t) = refl
  warn_close-outside (some e, t) = refl

  metrics_options-outside : (t : Trace S) → (metrics_options d t).1.outside ≡ t.outside
  unfolding metrics_options
  metrics_options-outside t =
      add_option-outside _ with_seconds d.seconds_histogram _
      ∙ add_option-outside _ with_requests d.requests_counter ([], t)

  after_dial-IsBalanced :
      (cfg : ServiceConfig) (t : Trace S) (r : Result C × Trace S)
      → Opened d.close t r
      → IsBalanced t (after_dial d cfg r)
  unfolding after_dial close_remote write_line
  after_dial-IsBalanced cfg t (err e, u) h = h
  after_dial-IsBalanced cfg t (ok conn, u) h = λ v p. warn_close-outside (d.close conn v) ∙ h v p

  module _ (laws : IsRemoteDriver d) where
    dial_greeter-IsBalanced :
        (cfg : ServiceConfig) (r : List MetricsOption × Trace S)
        → IsBalanced r.1 (dial_greeter d cfg r)
    unfolding dial_greeter
    dial_greeter-IsBalanced cfg (options, t) =
        after_dial-IsBalanced cfg t _ (laws.dials cfg.target cfg.timeout _ t)

    pub new_greeter_client-IsBalanced :
        (cfg : ServiceConfig) (t : Trace S) → IsBalanced t (new_greeter_client d cfg t)
    unfolding new_greeter_client nothing write_line build_client_middlewares
    new_greeter_client-IsBalanced cfg t = elim (Bool-cases cfg.enabled) [
      | inr e ↦ rw e (λ v p. p)
      | inl e ↦ elim (Bool-cases (same cfg.target [])) [
        | inl f ↦ rw (e, f) refl
        | inr f ↦ elim (Bool-cases (is_positive cfg.timeout)) [
          | inr g ↦ rw (e, f, g) refl
          | inl g ↦
              rw (e, f, g)
                (IsBalanced-from t (metrics_options d t).1 _ (metrics_options-outside t)
                  (dial_greeter-IsBalanced cfg (metrics_options d t)))
        ]
      ]
    ]
