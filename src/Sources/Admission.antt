-- ===== src/Sources/Admission.antt =====
-- apis/eventsource/v1alpha1/prometheus_webhook.go: which sources are admitted.
use k8s_countermeasures.Prelude.{
  Text, is_empty, if◌then◌else◌, Option, none, some, false, ◌≡◌, ◌↔◌, refl, arith,
}
use k8s_countermeasures.Manager.{NamespacedName}
use k8s_countermeasures.Outcome.{Error}
use k8s_countermeasures.Sources.{
  Prometheus, AuthSpec, get_namespaced_name, is_blank, or_not_found, secret_namespace,
  validate_auth, validate_prometheus,
}

or_not_found-none :
    (message : Text) (o : Option Error) → (or_not_found message o ≡ none) ↔ (o ≡ none)
unfolding or_not_found
or_not_found-none message o = ground arith

module _ (get_service get_secret : NamespacedName → Option Error) where
  -- The secret of the authentication, if there is one, can be read: in the namespace that its
  -- reference names, or in that of the source if it names none.
  abbrev pub SecretIsRead : Prometheus → Option AuthSpec → Type 0
  SecretIsRead p none = Unit {0}
  SecretIsRead p (some auth) =
      get_secret (record {
        namespace =
            if is_empty auth.secret_reference.namespace
            then p.object_meta.namespace
            else auth.secret_reference.namespace;
        name = auth.secret_reference.name;
      })
      ≡ none

  validate_auth_iff :
      (p : Prometheus) (auth : Option AuthSpec)
      → (validate_auth get_service get_secret p auth ≡ none) ↔ SecretIsRead p auth
  unfolding validate_auth secret_namespace
  validate_auth_iff p none = (λ _. tt, λ _. refl)
  validate_auth_iff p (some auth) = or_not_found-none _ _

  -- A source is admitted exactly when it refers to a service, the service can be read, and so can the
  -- secret of its authentication, if it has one, in its own namespace or else in that of the source.
  pub validate_prometheus_iff :
      (p : Prometheus)
      → (validate_prometheus get_service get_secret p ≡ none) ↔ (
          (is_blank p.spec.service ≡ false)
          × (get_service (get_namespaced_name p.spec.service) ≡ none)
          × SecretIsRead p p.spec.auth)
  unfolding validate_prometheus
  validate_prometheus_iff p = ground (
    arith,
    validate_auth_iff p p.spec.auth,
    or_not_found-none _ (get_service (get_namespaced_name p.spec.service)),
  )
