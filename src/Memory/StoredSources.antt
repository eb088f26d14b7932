-- ===== src/Memory/StoredSources.antt =====
-- The same of the types of the Prometheus sources.
use k8s_countermeasures.Prelude.{refl, List, Option, none, some}
use k8s_countermeasures.Sources.{AuthSpec}
use k8s_countermeasures.Memory.Objects.{
  Cell, PrometheusListObject, PrometheusObject, PrometheusSpecObject, PrometheusStatusObject,
  ServiceObject,
}
use k8s_countermeasures.Memory.Heap.{Storable}

abbrev pub auth_of : Cell → Option AuthSpec
auth_of (Cell.auth x) = some x
auth_of _ = none

instance abbrev pub auth-Storable : Storable AuthSpec
auth-Storable = record { to_cell = Cell.auth; of_cell = auth_of; of_cell-to_cell = λ x. refl }

abbrev pub service_of : Cell → Option ServiceObject
service_of (Cell.service x) = some x
service_of _ = none

instance abbrev pub service-Storable : Storable ServiceObject
service-Storable = record {
  to_cell = Cell.service;
  of_cell = service_of;
  of_cell-to_cell = λ x. refl;
}

abbrev pub prometheus_spec_of : Cell → Option PrometheusSpecObject
prometheus_spec_of (Cell.prometheus_spec x) = some x
prometheus_spec_of _ = none

instance abbrev pub prometheus_spec-Storable : Storable PrometheusSpecObject
prometheus_spec-Storable = record {
  to_cell = Cell.prometheus_spec;
  of_cell = prometheus_spec_of;
  of_cell-to_cell = λ x. refl;
}

abbrev pub prometheus_status_of : Cell → Option PrometheusStatusObject
prometheus_status_of (Cell.prometheus_status x) = some x
prometheus_status_of _ = none

instance abbrev pub prometheus_status-Storable : Storable PrometheusStatusObject
prometheus_status-Storable = record {
  to_cell = Cell.prometheus_status;
  of_cell = prometheus_status_of;
  of_cell-to_cell = λ x. refl;
}

abbrev pub prometheus_of : Cell → Option PrometheusObject
prometheus_of (Cell.prometheus x) = some x
prometheus_of _ = none

instance abbrev pub prometheus-Storable : Storable PrometheusObject
prometheus-Storable = record {
  to_cell = Cell.prometheus;
  of_cell = prometheus_of;
  of_cell-to_cell = λ x. refl;
}

abbrev pub prometheuses_of : Cell → Option (List PrometheusObject)
prometheuses_of (Cell.prometheuses x) = some x
prometheuses_of _ = none

instance abbrev pub prometheuses-Storable : Storable (List PrometheusObject)
prometheuses-Storable = record {
  to_cell = Cell.prometheuses;
  of_cell = prometheuses_of;
  of_cell-to_cell = λ x. refl;
}

abbrev pub prometheus_list_of : Cell → Option PrometheusListObject
prometheus_list_of (Cell.prometheus_list x) = some x
prometheus_list_of _ = none

instance abbrev pub prometheus_list-Storable : Storable PrometheusListObject
prometheus_list-Storable = record {
  to_cell = Cell.prometheus_list;
  of_cell = prometheus_list_of;
  of_cell-to_cell = λ x. refl;
}
