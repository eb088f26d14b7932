-- ===== src/Sources.antt =====
-- apis/eventsource/v1alpha1: the Prometheus sources and their admission. What `client.Get` answers
-- for a service or a secret is an argument: an error, or nil. The type metadata and the list type are
-- left out.
pub mod Admission
use k8s_countermeasures.Prelude.{
  Text, codes, is_empty, if◌then◌else◌, Option, none, some, ◌++◌, Bool, true, false, ◌&&◌, not,
  ◌==◌, ◌*◌,
}
use k8s_countermeasures.Prelude.Int.{ℤ, pos, int_eq}
use k8s_countermeasures.Manager.{NamespacedName, ObjectMeta}
use k8s_countermeasures.Prelude.{List}
use k8s_countermeasures.Api.Types.{Condition}
use k8s_countermeasures.Outcome.{Error, not_found, failed}

pub record ServiceReference : Type 0 where
  pub namespace : Text
  pub name : Text
  pub path : Option Text
  pub port : ℤ
  pub target_port : Text
  pub use_tls : Bool

-- `corev1.SecretReference`.
pub record SecretReference : Type 0 where
  pub namespace : Text
  pub name : Text

pub record AuthSpec : Type 0 where
  pub secret_reference : SecretReference

-- The interval is in nanoseconds.
pub record PrometheusSpec : Type 0 where
  pub service : ServiceReference
  pub auth : Option AuthSpec
  pub polling_interval : ℤ
  pub include_pending : Bool

pub record PrometheusStatus : Type 0 where
  pub state : Text
  pub conditions : List Condition

pub record Prometheus : Type 0 where
  pub object_meta : ObjectMeta
  pub spec : PrometheusSpec
  pub status : PrometheusStatus

unfoldable pub get_namespaced_name : ServiceReference → NamespacedName
get_namespaced_name s = record { namespace = s.namespace; name = s.name }

unfoldable pub default : Prometheus → Prometheus
default p = record p {
  spec = record p.spec { include_pending = false; polling_interval = pos (15 * 1000000000) };
}

abbrev pub is_nil : Option Text → Bool
is_nil none = true
is_nil (some t) = false

-- `p.Service == ServiceReference{}`.
unfoldable pub is_blank : ServiceReference → Bool
is_blank s =
    is_empty s.namespace
    && is_empty s.name
    && is_nil s.path
    && (s.port == pos 0)
    && is_empty s.target_port
    && not s.use_tls

-- An error of `client.Get`: one that says that the object is not found is replaced.
unfoldable pub or_not_found : Text → Option Error → Option Error
or_not_found message none = none
or_not_found message (some (not_found t)) = some (failed message)
or_not_found message (some e) = some e

-- The namespace of the secret, or that of the source where the secret names none.
unfoldable pub secret_namespace : Prometheus → SecretReference → Text
secret_namespace p ref = if is_empty ref.namespace then p.object_meta.namespace else ref.namespace

module _ (get_service get_secret : NamespacedName → Option Error) where
  unfoldable pub validate_auth : Prometheus → Option AuthSpec → Option Error
  unfolding or_not_found secret_namespace
  validate_auth p none = none
  validate_auth p (some auth) =
      let ref = auth.secret_reference in
      or_not_found
        (codes "secret '"
          ++ (ref.name ++ (codes "' is not found in namespace '" ++ (ref.namespace ++ codes "'"))))
        (get_secret (record { namespace = secret_namespace p ref; name = ref.name }))

  unfoldable pub validate_prometheus : Prometheus → Option Error
  unfolding is_blank or_not_found get_namespaced_name validate_auth
  validate_prometheus p =
      let s = p.spec.service in
      if is_blank s
      then some (failed (codes "service reference is required"))
      else elim (or_not_found
          (codes "prometheus service '"
            ++ (s.name ++ (codes "' is not found in namespace '" ++ (s.namespace ++ codes "'"))))
          (get_service (get_namespaced_name s))) [
            | some e ↦ some e
            | none ↦ validate_auth p p.spec.auth
          ]

  unfoldable pub validate_create : Prometheus → Option Error
  unfolding validate_prometheus
  validate_create p = validate_prometheus p

  unfoldable pub validate_update : Prometheus → Prometheus → Option Error
  unfolding validate_prometheus
  validate_update p old = validate_prometheus p

unfoldable pub validate_delete : Prometheus → Option Error
validate_delete p = none
