-- ===== src/Producer/Prometheus/Polling.antt =====
-- What a poll publishes: one event for each active alert, under the source's topic, in order.
use k8s_countermeasures.Prelude.{
  Text, text_eq, codes, Map, if◌then◌else◌, some, List, [], ◌∷◌, Bool, true, false, ◌||◌, ◌&&◌, ◌≡◌,
  refl, ap, ◌∙◌, inl, inr, arith, Bool-cases,
}
use k8s_countermeasures.Outcome.{ok}
use k8s_countermeasures.Events.{Event, get, create_fully_qualified_topic_name}
use k8s_countermeasures.EventBus.Bus.{WorkQueue, publish}
use k8s_countermeasures.Actions.Runner.{Retry}
use k8s_countermeasures.Actions.Runner.Trace.{Attempts-once}
use k8s_countermeasures.Producer.Prometheus.{
  Alert, AlertState, firing, pending, inactive, PrometheusConfig, find_active_alert, to_event,
  to_event_list, copy_labels, is_firing, is_pending, publish_event, publish_all, poll,
}

-- Whether an alert is to be published.
abbrev pub is_active : Bool → AlertState → Bool
is_active include_pending firing = true
is_active include_pending pending = include_pending
is_active include_pending inactive = false

-- The event that an alert stands for: its name is the label `alertname`, its data all the labels.
abbrev pub event_of : Alert → Event
event_of a = record {
  name = get a.labels (codes "alertname");
  active_time = a.active_at;
  event_data = some a.labels;
}

copy_labels_lem : (l : Map Text Text) → copy_labels l ≡ l
unfolding copy_labels
copy_labels_lem [] = refl
copy_labels_lem (e ∷ l) = ap (λ r. e ∷ r) (copy_labels_lem l)

pub to_event_lem : (a : Alert) → to_event a ≡ event_of a
unfolding to_event
to_event_lem a = ground (arith, copy_labels_lem a.labels)

active_test :
    (include_pending : Bool) (s : AlertState)
    → (is_firing s || (include_pending && is_pending s)) ≡ is_active include_pending s
active_test include_pending firing = refl
active_test true pending = refl
active_test false pending = refl
active_test true inactive = refl
active_test false inactive = refl

module _ (q : WorkQueue) (retry : Retry q.Queue) (config : PrometheusConfig) where
  publish_event_lem :
      (topic : Text) (event : Event) (queue : q.Queue)
      → publish_event q retry config topic event queue ≡ publish q topic event queue
  unfolding publish_event
  publish_event_lem topic event queue =
      ap (λ r. r.1)
        (Attempts-once (λ e. true) (λ w. (ok tt, publish q topic event w))
          (λ e h. absurd (ground arith))
          (retry.on_error-Attempts (λ e. true) (λ w. (ok tt, publish q topic event w)) queue))

  -- The queue after the alerts, read one by one.
  abbrev pub published : List Alert → q.Queue → q.Queue
  published [] queue = queue
  published (a ∷ alerts) queue = published alerts (
      if is_active config.include_pending a.state
      then publish q
          (create_fully_qualified_topic_name (event_of a).name config.key.namespaced_name)
          (event_of a) queue
      else queue)

  publish_all-cons :
      (a : Alert) (l : List Alert) (queue : q.Queue)
      → publish_all q retry config (to_event_list (a ∷ l)) queue
        ≡ publish_all q retry config (to_event_list l) (
            publish q
              (create_fully_qualified_topic_name (event_of a).name config.key.namespaced_name)
              (event_of a)
              queue)
  unfolding publish_all to_event_list
  publish_all-cons a l queue =
      ap (λ e. publish_all q retry config (e ∷ to_event_list l) queue) (to_event_lem a)
      ∙ ap (publish_all q retry config (to_event_list l)) (publish_event_lem _ (event_of a) queue)

  publish_all_lem :
      (alerts : List Alert) (queue : q.Queue)
      → publish_all q retry config
          (to_event_list (find_active_alert alerts config.include_pending))
          queue
        ≡ published alerts queue
  unfolding publish_all to_event_list find_active_alert
  publish_all_lem [] queue = refl
  publish_all_lem (a ∷ alerts) queue =
      elim (Bool-cases (is_active config.include_pending a.state)) [
        | inl e ↦
            rw (active_test config.include_pending a.state, e)
              (publish_all-cons a (find_active_alert alerts config.include_pending) queue
                ∙ publish_all_lem alerts _)
        | inr e ↦ rw (active_test config.include_pending a.state, e) (publish_all_lem alerts queue)
      ]

  poll_found :
      (alerts found : List Alert) (queue : q.Queue)
      → find_active_alert alerts config.include_pending ≡ found
      → poll q retry config (ok alerts) queue
        ≡ publish_all q retry config (to_event_list found) queue
  unfolding poll
  poll_found alerts [] queue e = ground (arith, e)
  poll_found alerts (a ∷ l) queue e = ground (arith, e)

  -- A poll that gets an answer publishes one event for each alert that fires, and for each that is
  -- pending if the source includes those: in the order of the alerts, each once, under the topic of
  -- the alert's name at this source, with the alert's labels for its data. It publishes nothing else.
  pub poll_publishes :
      (alerts : List Alert) (queue : q.Queue)
      → poll q retry config (ok alerts) queue ≡ published alerts queue
  poll_publishes alerts queue = poll_found alerts _ queue refl ∙ publish_all_lem alerts queue
