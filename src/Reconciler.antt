-- ===== src/Reconciler.antt =====
-- pkg/reconciler/reconciler.go: the keys of resources, the port of a service, the secret of a source
-- and the outcome of a reconciliation.
pub mod Keys
use k8s_countermeasures.Prelude.{
  Text, text_eq, codes, split, contains, is_empty, length, ltb, nat_eq, ◌==◌, if◌then◌else◌, Option,
  none, some, List, [], ◌∷◌, ◌++◌, Bool, true, false, ℕ,
}
use k8s_countermeasures.Prelude.Int.{ℤ, pos}
use k8s_countermeasures.Manager.{NamespacedName, ObjectMeta}
use k8s_countermeasures.Sources.{ServiceReference}
use k8s_countermeasures.Outcome.{Outcome, Error, ok, err, panic, failed}

abbrev pub slash : ℕ
slash = b'/'

unfoldable pub service_to_key : ServiceReference → Text
service_to_key s = if is_empty s.namespace then s.name else s.namespace ++ (codes "/" ++ s.name)

unfoldable pub to_namespace_name : ObjectMeta → NamespacedName
to_namespace_name m = record { namespace = m.namespace; name = m.name }

unfoldable pub to_key : ObjectMeta → Text
to_key m = if is_empty m.namespace then m.name else m.namespace ++ (codes "/" ++ m.name)

-- `split[0]` and `split[1]`; an index out of range panics.
unfoldable pub split_parts : List Text → Option NamespacedName
split_parts [] = none
split_parts (ns ∷ []) = none
split_parts (ns ∷ n ∷ rest) = some (record { namespace = ns; name = n })

unfoldable pub split_key : Text → Option NamespacedName
unfolding split_parts
split_key key =
    if contains slash key
    then split_parts (split slash key)
    else some (record { namespace = []; name = key })

-- The fields of `corev1.ServicePort` that are read.
pub record ServicePort : Type 0 where
  pub name : Text
  pub port : ℤ

unfoldable pub find_by_name : List ServicePort → Text → Option ServicePort
find_by_name [] named_port = none
find_by_name (p ∷ ports) named_port =
    if p.name == named_port then some p else find_by_name ports named_port

unfoldable pub first_port : List ServicePort → Option ServicePort
first_port [] = none
first_port (p ∷ ports) = some p

-- `none` where the second result is false.
unfoldable pub find_named_port : List ServicePort → Text → Option ServicePort
unfolding find_by_name first_port
find_named_port ports named_port =
    let port_count = length ports in
    if port_count == 1
    then first_port ports
    else if ltb 1 port_count
    then find_by_name ports named_port
    else none

-- The fields of `corev1.Secret` that are read.
pub record Secret : Type 0 where
  pub kind : Text
  pub username : Text
  pub password : Text

-- What `client.Get` answers for the reference is an argument.
unfoldable pub get_secret : Outcome Secret → Outcome Secret
get_secret (err e) = err e
get_secret panic = panic
get_secret (ok secret) =
    if secret.kind == codes "kubernetes.io/basic-auth"
    then ok secret
    else err (
        failed (codes "only the basic auth type (kubernetes.io/basic-auth) is currently supported"))

-- What a handler does is an argument; it is given the delay of the next reconciliation.
unfoldable pub handle_error {ℓ} :
    {R : Type ℓ} → (ObjectMeta → Error → ℤ → R) → ObjectMeta → Error → R
handle_error on_error meta e = on_error meta e (pos 0)

unfoldable pub handle_outcome {ℓ} :
    {R : Type ℓ} → (ObjectMeta → Error → ℤ → R) → (ObjectMeta → R) → ObjectMeta → Option Error → R
unfolding handle_error
handle_outcome on_error on_success meta none = on_success meta
handle_outcome on_error on_success meta (some e) = handle_error on_error meta e
