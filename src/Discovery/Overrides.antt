-- ===== src/Discovery/Overrides.antt =====
-- What the settings of the program override in the configuration of the client of Kubernetes.
use web_template_go.Prelude.{
  [], ◌∷◌, true, Option, none, some, Bool-cases, ◌≡◌, ◌≢◌, refl, ◌⊎◌, inl, inr, arith, subst,
  some-injective,
}
use web_template_go.FilePath.Split.{base}
use web_template_go.Errors.{Result, ok-injective, ok, err}
use web_template_go.Databases.{is_positive, or_default}
use web_template_go.Discovery.{
  KubernetesConfig, KubernetesDriver, RestConfig, apply_overrides, override_with, build_rest_config,
  or_empty, overridden, normalize_mode, build_kubeconfig, message,
}
use web_template_go.Text.{Bytes, bytes, same, trim_space, same-eq}

or_empty_given : (fallback s : Bytes) → s ≢ [] → or_empty fallback s ≡ s
unfolding same
or_empty_given fallback [] h = absurd (h refl)
or_empty_given fallback (c ∷ s) h = refl

normalize_mode-in_cluster :
    (s : Bytes)
    → or_empty (bytes "in_cluster") s ≡ bytes "in_cluster"
    → (s ≡ []) ⊎ (s ≡ bytes "in_cluster") ⊎ (s ≡ bytes "kubeconfig")
unfolding same
normalize_mode-in_cluster [] h = inl refl
normalize_mode-in_cluster (c ∷ s) h = inr (inl h)

normalize_mode-kubeconfig :
    (s : Bytes) → or_empty (bytes "in_cluster") s ≡ bytes "kubeconfig" → s ≡ bytes "kubeconfig"
unfolding same bytes
normalize_mode-kubeconfig [] h = ground (arith, h)
normalize_mode-kubeconfig (c ∷ s) h = h

module _ {O : Type 0} (cfg : KubernetesConfig) where
  -- Each setting that is given is in the result.
  abbrev pub IsOverridden : RestConfig O → Type 0
  IsOverridden rest =
      (trim_space cfg.api_server ≢ [] → rest.host ≡ trim_space cfg.api_server)
      × (trim_space cfg.token ≢ [] → rest.bearer_token ≡ trim_space cfg.token)
      × (is_positive cfg.timeout ≡ true → rest.timeout ≡ cfg.timeout)
      × (cfg.insecure_skip_verify ≡ true → rest.insecure ≡ true)

  override_with-IsOverridden : (base : RestConfig O) → IsOverridden (override_with cfg base)
  unfolding override_with or_default
  override_with-IsOverridden base = (
    λ h. or_empty_given base.host (trim_space cfg.api_server) h,
    λ h. or_empty_given base.bearer_token (trim_space cfg.token) h,
    λ h. rw h refl,
    λ h. rw h refl,
  )

  module _ {K R S : Type 0} (d : KubernetesDriver O K R S) where
    overridden-IsOverridden :
        (r : Result (Option (RestConfig O))) (rest : RestConfig O)
        → overridden d cfg r ≡ ok (some rest)
        → IsOverridden rest
    unfolding overridden apply_overrides
    overridden-IsOverridden (err e) rest h = ground arith
    overridden-IsOverridden (ok none) rest h = ground arith
    overridden-IsOverridden (ok (some given)) rest h =
        subst IsOverridden (some-injective (ok-injective h)) (override_with-IsOverridden given)

    build_kubeconfig-IsOverridden :
        (rest : RestConfig O) → build_kubeconfig d cfg ≡ ok (some rest) → IsOverridden rest
    unfolding build_kubeconfig
    build_kubeconfig-IsOverridden rest h = elim (Bool-cases (same (trim_space cfg.kubeconfig) [])) [
      | inl e ↦
          let k : err (message (bytes "kubernetes kubeconfig is empty")) ≡ ok (some rest) =
            rw e at h in
          absurd (ground (arith, k))
      | inr e ↦ overridden-IsOverridden _ rest (rw e at h)
    ]

    -- Whatever the mode is and whatever the libraries find: a configuration that buildRestConfig
    -- returns has the API server, the token and the timeout that are set, and does not verify if it
    -- is to be so; and then the mode is one of the two known ones, `in_cluster` if it is blank.
    pub build_rest_config-IsOverridden :
        (rest : RestConfig O)
        → build_rest_config d cfg ≡ ok (some rest)
        → IsOverridden rest
          × ((trim_space cfg.mode ≡ [])
              ⊎ (trim_space cfg.mode ≡ bytes "in_cluster")
              ⊎ (trim_space cfg.mode ≡ bytes "kubeconfig"))
    unfolding build_rest_config normalize_mode
    build_rest_config-IsOverridden rest h =
        let mode = normalize_mode cfg.mode in
        elim (Bool-cases (same mode (bytes "in_cluster"))) [
          | inl e ↦ (
            overridden-IsOverridden d.in_cluster_config rest (rw e at h),
            normalize_mode-in_cluster (trim_space cfg.mode) (same-eq mode (bytes "in_cluster") e),
          )
          | inr e ↦ elim (Bool-cases (same mode (bytes "kubeconfig"))) [
            | inl f ↦ (
              build_kubeconfig-IsOverridden rest (rw (e, f) at h),
              inr (
                  inr (
                    normalize_mode-kubeconfig (trim_space cfg.mode)
                      (same-eq mode (bytes "kubeconfig") f))),
            )
            | inr f ↦
                let k : err (message (bytes "kubernetes mode is invalid")) ≡ ok (some rest) =
                  rw (e, f) at h in
                absurd (ground (arith, k))
          ]
        ]
