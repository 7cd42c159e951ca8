-- ===== src/Discovery/Balance.antt =====
-- The registry is closed again.
use web_template_go.Text.{Bytes}
use web_template_go.Errors.{Result, ok, err, ◌>>=◌}
use web_template_go.Prelude.{Bool-cases, ◌≡◌, refl, inl, inr}
use web_template_go.Databases.{nothing}
use web_template_go.Greeter.Trace.{Trace, write_line}
use web_template_go.Databases.Balance.{IsBalanced}
use web_template_go.Discovery.{
  KubernetesConfig, KubernetesDriver, new_kubernetes_registrar, start_registry, close_registry,
  build_rest_config, registry_namespace, apply_overrides,
}

-- Close of a registry that has been started leads back to before, from whatever log.
pub record IsKubernetesDriver {O K R S : Type 0} (d : KubernetesDriver O K R S) : Type 0 where
  pub starts :
      (client : K) (namespace : Bytes) (t v : Trace S)
      → v.outside ≡ (d.start client namespace t).1.outside
      → (d.close (d.start client namespace t).0 v).outside ≡ t.outside

module _ {O K R S : Type 0} (d : KubernetesDriver O K R S) (laws : IsKubernetesDriver d) where
  start_registry-IsBalanced :
      (cfg : KubernetesConfig) (client : Result K) (t : Trace S)
      → IsBalanced t (start_registry d cfg client t)
  unfolding start_registry close_registry write_line
  start_registry-IsBalanced cfg (err e) t = refl
  start_registry-IsBalanced cfg (ok client) t =
      λ v p. laws.starts client (registry_namespace d cfg) t v p

  pub new_kubernetes_registrar-IsBalanced :
      (cfg : KubernetesConfig) (t : Trace S) → IsBalanced t (new_kubernetes_registrar d cfg t)
  unfolding new_kubernetes_registrar nothing write_line apply_overrides
  new_kubernetes_registrar-IsBalanced cfg t = elim (Bool-cases cfg.enabled) [
    | inr e ↦ rw e (λ v p. p)
    | inl e ↦ rw e (start_registry-IsBalanced cfg (build_rest_config d cfg >>= d.new_for_config) t)
  ]
