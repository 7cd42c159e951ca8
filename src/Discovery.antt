-- ===== src/Discovery.antt =====
-- internal/pkg/discoveryx: the registrar of Kubernetes, from registry.go, and its configuration.
pub mod Balance
pub mod Overrides
use web_template_go.Errors.{Result, ok, err, Error, message, ◌>>=◌}
use web_template_go.Greeter.Trace.{Trace, write_line, info}
use web_template_go.Text.{Bytes, bytes, same, trim_space}
use web_template_go.Databases.{Connection, nothing, or_default, ℤ}
use web_template_go.Prelude.{
  [], ◌++◌, Bool, not, Option, none, some, if◌then◌else◌, ℕ, zero, suc, ◌+◌, ◌-◌, ◌<◌, ◌≤◌, List,
  ◌∷◌, true, false, ◌↔◌, map, Bool-cases, Option-cases, sym, ap, ◌==◌, ◌∙◌, ◌≡◌, ◌≢◌, refl, ◌⊎◌,
  inl, inr, arith, ◌||◌,
}

pub record KubernetesConfig : Type 0 where
  pub enabled : Bool
  pub mode : Bytes
  pub api_server : Bytes
  pub kubeconfig : Bytes
  pub namespace : Bytes
  pub token : Bytes
  pub timeout : ℤ
  pub insecure_skip_verify : Bool

-- rest.Config: the fields that are overridden, and in `others` all the rest.
pub record RestConfig (O : Type 0) : Type 0 where
  pub host : Bytes
  pub bearer_token : Bytes
  pub timeout : ℤ
  pub insecure : Bool
  pub others : O

abbrev or_empty : Bytes → Bytes → Bytes
or_empty fallback s = if same s [] then fallback else s

unfoldable pub normalize_mode : Bytes → Bytes
normalize_mode mode = or_empty (bytes "in_cluster") (trim_space mode)

unfoldable pub override_with : {O : Type 0} → KubernetesConfig → RestConfig O → RestConfig O
override_with cfg rest = record {
  host = or_empty rest.host (trim_space cfg.api_server);
  bearer_token = or_empty rest.bearer_token (trim_space cfg.token);
  timeout = or_default rest.timeout cfg.timeout;
  insecure = cfg.insecure_skip_verify || rest.insecure;
  others = rest.others;
}

-- applyOverrides: nothing happens to a nil configuration.
unfoldable pub apply_overrides :
    {O : Type 0} → KubernetesConfig → Option (RestConfig O) → Option (RestConfig O)
unfolding override_with
apply_overrides cfg none = none
apply_overrides cfg (some rest) = some (override_with cfg rest)

-- client-go and the registry of kratos: the configuration inside a cluster and the one of a file,
-- the client, the namespace that the process runs in, a registry that is started, and Close. `K` is
-- the client and `R` the registry.
pub record KubernetesDriver (O K R S : Type 0) : Type 0 where
  pub in_cluster_config : Result (Option (RestConfig O))
  pub build_config_from_flags : Bytes → Bytes → Result (Option (RestConfig O))
  pub new_for_config : Option (RestConfig O) → Result K
  pub get_namespace : Bytes
  pub start : K → Bytes → Trace S → R × Trace S
  pub close : R → Trace S → Trace S

module _ {O K R S : Type 0} (driver : KubernetesDriver O K R S) where
  unfoldable pub overridden :
      KubernetesConfig → Result (Option (RestConfig O)) → Result (Option (RestConfig O))
  overridden cfg r = r >>= λ rest. ok (apply_overrides cfg rest)

  unfoldable pub build_in_cluster_config : KubernetesConfig → Result (Option (RestConfig O))
  unfolding overridden
  build_in_cluster_config cfg = overridden cfg driver.in_cluster_config

  unfoldable pub build_kubeconfig : KubernetesConfig → Result (Option (RestConfig O))
  unfolding overridden
  build_kubeconfig cfg =
      if same (trim_space cfg.kubeconfig) []
      then err (message (bytes "kubernetes kubeconfig is empty"))
      else overridden cfg
          (driver.build_config_from_flags (trim_space cfg.api_server) (trim_space cfg.kubeconfig))

  unfoldable pub build_rest_config : KubernetesConfig → Result (Option (RestConfig O))
  unfolding build_in_cluster_config build_kubeconfig
  build_rest_config cfg =
      let mode = normalize_mode cfg.mode in
      if same mode (bytes "in_cluster")
      then build_in_cluster_config cfg
      else if same mode (bytes "kubeconfig")
      then build_kubeconfig cfg
      else err (message (bytes "kubernetes mode is invalid"))

  -- The namespace; metav1.NamespaceAll is the empty text.
  unfoldable pub registry_namespace : KubernetesConfig → Bytes
  registry_namespace cfg = or_empty (or_empty [] driver.get_namespace) (trim_space cfg.namespace)

  unfoldable pub close_registry : R → Trace S → Trace S
  close_registry reg t =
      write_line info (bytes "kubernetes registry closed") none (driver.close reg t)

  unfoldable pub start_registry : KubernetesConfig → Result K → Trace S → Connection R S
  unfolding registry_namespace close_registry
  start_registry cfg (err e) t = (err e, t)
  start_registry cfg (ok client) t =
      let namespace = registry_namespace cfg in
      let (reg, t') = driver.start client namespace t in
      (
        ok (some reg, close_registry reg),
        write_line info
            (bytes "kubernetes registry connected namespace="
              ++ (namespace ++ (bytes " mode=" ++ normalize_mode cfg.mode)))
            none t',
      )

  unfoldable pub new_kubernetes_registrar : KubernetesConfig → Trace S → Connection R S
  unfolding start_registry build_rest_config nothing
  new_kubernetes_registrar cfg t =
      if not cfg.enabled
      then (
        ok (none, nothing),
        write_line info (bytes "kubernetes registry disabled, skip initialization") none t,
      )
      else start_registry cfg (build_rest_config cfg >>= driver.new_for_config) t
