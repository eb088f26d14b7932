-- ===== src/Tests/ActingTests.antt =====
-- An alert on its way to the actions, at a concrete source and countermeasure.
use k8s_countermeasures.Prelude.{text_eq, codes, Option, none, [], ◌∷◌, true}
use k8s_countermeasures.Prelude.Int.{pos}
use k8s_countermeasures.Outcome.{Error}
use k8s_countermeasures.Api.Types.{LabelSelector}
use k8s_countermeasures.EventBus.Bus.{new_bus}
use k8s_countermeasures.Actions.Manager.{Manager}
use k8s_countermeasures.Producer.Prometheus.{Alert, pending, PrometheusConfig}
use k8s_countermeasures.Tests.Fixtures.{key}

abbrev no_sources : LabelSelector → Option Error
no_sources selector = none

abbrev manager : Manager
manager = record { consumers = []; state = record { measures = [] }; bus = new_bus }

-- A source that takes pending alerts, and such an alert.
abbrev config : PrometheusConfig
config = record { poll_interval = pos 30; include_pending = true; key = key }

abbrev alert : Alert
alert = record {
  state = pending;
  active_at = pos 1;
  labels = (codes "alertname", codes "high") ∷ [];
}
