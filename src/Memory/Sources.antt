-- ===== src/Memory/Sources.antt =====
-- apis/eventsource/v1alpha1/zz_generated.deepcopy.go, in the same form as the copies of
-- countermeasures.
use k8s_countermeasures.Prelude.{Text}
use k8s_countermeasures.Sources.{AuthSpec}
use k8s_countermeasures.Memory.Objects.{
  Pointer, PrometheusListObject, PrometheusObject, PrometheusSpecObject, PrometheusStatusObject,
  ServiceObject,
}
use k8s_countermeasures.Memory.Heap.{Command, pure, ◌>>=◌, copy_pointer, copy_slice}
use k8s_countermeasures.Memory.Stored.{string-Storable, conditions-Storable}
use k8s_countermeasures.Memory.StoredSources.{
  auth-Storable, service-Storable, prometheus_spec-Storable, prometheus_status-Storable,
  prometheus-Storable, prometheuses-Storable, prometheus_list-Storable,
}
use k8s_countermeasures.Memory.CounterMeasures.{ForeignCopies, RuntimeObject, as_object}

unfoldable pub deep_copy_into_auth : AuthSpec → Command AuthSpec
deep_copy_into_auth x = pure (record x { secret_reference = x.secret_reference })

unfoldable pub deep_copy_into_service : ServiceObject → Command ServiceObject
deep_copy_into_service x = do
  path ← copy_pointer {X = Text} pure x.path
  pure (record x { path = path })

unfoldable pub deep_copy_into_prometheus_spec : PrometheusSpecObject → Command PrometheusSpecObject
deep_copy_into_prometheus_spec x = do
  service ← deep_copy_into_service x.service
  auth ← copy_pointer {X = AuthSpec} pure x.auth
  pure (record x { service = service; auth = auth; polling_interval = x.polling_interval })

module _ (copies : ForeignCopies) where
  unfoldable pub deep_copy_into_prometheus_status :
      PrometheusStatusObject → Command PrometheusStatusObject
  deep_copy_into_prometheus_status x = do
    conditions ← copy_slice copies.condition x.conditions
    pure (record x { conditions = conditions })

  unfoldable pub deep_copy_into_prometheus : PrometheusObject → Command PrometheusObject
  deep_copy_into_prometheus x = do
    object_meta ← copies.object_meta x.object_meta
    spec ← deep_copy_into_prometheus_spec x.spec
    status ← deep_copy_into_prometheus_status x.status
    pure (record x {
      type_meta = x.type_meta;
      object_meta = object_meta;
      spec = spec;
      status = status;
    })

  unfoldable pub deep_copy_into_prometheus_list :
      PrometheusListObject → Command PrometheusListObject
  deep_copy_into_prometheus_list x = do
    list_meta ← copies.list_meta x.list_meta
    items ← copy_slice deep_copy_into_prometheus x.items
    pure (record x { type_meta = x.type_meta; list_meta = list_meta; items = items })

-- The methods `DeepCopy`.
unfoldable pub deep_copy_auth : Pointer → Command Pointer
deep_copy_auth = copy_pointer deep_copy_into_auth

unfoldable pub deep_copy_service : Pointer → Command Pointer
deep_copy_service = copy_pointer deep_copy_into_service

unfoldable pub deep_copy_prometheus_spec : Pointer → Command Pointer
deep_copy_prometheus_spec = copy_pointer deep_copy_into_prometheus_spec

module _ (copies : ForeignCopies) where
  unfoldable pub deep_copy_prometheus_status : Pointer → Command Pointer
  deep_copy_prometheus_status = copy_pointer (deep_copy_into_prometheus_status copies)

  unfoldable pub deep_copy_prometheus : Pointer → Command Pointer
  deep_copy_prometheus = copy_pointer (deep_copy_into_prometheus copies)

  unfoldable pub deep_copy_prometheus_list : Pointer → Command Pointer
  deep_copy_prometheus_list = copy_pointer (deep_copy_into_prometheus_list copies)

  unfoldable pub prometheus_object : Pointer → Command RuntimeObject
  unfolding deep_copy_prometheus
  prometheus_object p = do c ← deep_copy_prometheus p; pure (as_object RuntimeObject.prometheus c)

  unfoldable pub prometheus_list_object : Pointer → Command RuntimeObject
  unfolding deep_copy_prometheus_list
  prometheus_list_object p = do
    c ← deep_copy_prometheus_list p
    pure (as_object RuntimeObject.prometheus_list c)
