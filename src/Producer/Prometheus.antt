-- ===== src/Producer/Prometheus.antt =====
-- pkg/producer/prometheus: alerts become events, and a poll publishes them. What the Prometheus
-- API answers is an argument.
pub mod Polling
use k8s_countermeasures.Prelude.{
  Text, text_eq, codes, Map, lookup, if◌then◌else◌, Option, none, some, List, [], ◌∷◌, Bool, true,
  false, ◌||◌, ◌&&◌,
}
use k8s_countermeasures.Prelude.Int.{ℤ}
use k8s_countermeasures.Manager.{ObjectKey}
use k8s_countermeasures.Outcome.{Outcome, Error, ok, err, panic, failed}
use k8s_countermeasures.Events.{Event, EventData, get, create_fully_qualified_topic_name}
use k8s_countermeasures.EventBus.Bus.{WorkQueue, publish}
use k8s_countermeasures.Actions.Runner.{Retry}

-- `v1.AlertState` and `v1.Alert`.
pub data AlertState : Type 0 where
  firing pending inactive : AlertState

pub record Alert : Type 0 where
  pub state : AlertState
  pub active_at : ℤ
  pub labels : Map Text Text

abbrev pub is_firing : AlertState → Bool
is_firing firing = true
is_firing _ = false

abbrev pub is_pending : AlertState → Bool
is_pending pending = true
is_pending _ = false

unfoldable pub find_active_alert : List Alert → Bool → List Alert
find_active_alert [] include_pending = []
find_active_alert (a ∷ alerts) include_pending =
    let found = find_active_alert alerts include_pending in
    if is_firing a.state || (include_pending && is_pending a.state) then a ∷ found else found

-- The loop copies the labels one by one.
unfoldable pub copy_labels : Map Text Text → EventData
copy_labels [] = []
copy_labels ((label, value) ∷ rest) = (label, value) ∷ copy_labels rest

unfoldable pub to_event : Alert → Event
unfolding copy_labels get
to_event a = record {
  name = get a.labels (codes "alertname");
  active_time = a.active_at;
  event_data = some (copy_labels a.labels);
}

unfoldable pub to_event_list : List Alert → List Event
unfolding to_event
to_event_list [] = []
to_event_list (a ∷ alerts) = to_event a ∷ to_event_list alerts

-- `none` is `ErrAlertNotFiring`.
unfoldable pub to_events : List Alert → Bool → Option (List Event)
unfolding find_active_alert to_event_list
to_events alerts include_pending = elim (find_active_alert alerts include_pending) [
  | [] ↦ none
  | a ∷ rest ↦ some (to_event_list (a ∷ rest))
]

pub record PrometheusConfig : Type 0 where
  pub poll_interval : ℤ
  pub include_pending : Bool
  pub key : ObjectKey

module _ (q : WorkQueue) (retry : Retry q.Queue) (config : PrometheusConfig) where
  -- The bus accepts every event.
  unfoldable pub publish_event : Text → Event → q.Queue → q.Queue
  unfolding publish
  publish_event topic event queue =
      (retry.on_error (λ e. true) (λ w. (ok tt, publish q topic event w)) queue).1

  unfoldable pub publish_all : List Event → q.Queue → q.Queue
  unfolding publish_event create_fully_qualified_topic_name
  publish_all [] queue = queue
  publish_all (e ∷ events) queue =
      let topic = create_fully_qualified_topic_name e.name config.key.namespaced_name in
      publish_all events (publish_event topic e queue)

  unfoldable pub poll : Outcome (List Alert) → q.Queue → q.Queue
  unfolding to_events publish_all
  poll (err e) queue = queue
  poll panic queue = queue
  poll (ok alerts) queue = elim (to_events alerts config.include_pending) [
    | none ↦ queue
    | some events ↦ publish_all events queue
  ]
