-- ===== src/Actions/Manager/Acting.antt =====
-- From an alert to the actions: the poll of the source (pkg/producer/prometheus), the bus
-- (pkg/eventbus), and the goroutine of the countermeasure (pkg/actions/manager.go) with the runner of
-- the registry (pkg/actions/action.go).
use k8s_countermeasures.Prelude.{
  text_eq, lookup, nat_eq, ℕ, ◌<◌, ◌≤◌, length, ◌⊎◌, some, List, [], ◌∷◌, true, ◌≡◌,
}
use k8s_countermeasures.Prelude.Int.{ℤ}
use k8s_countermeasures.Manager.{to_key, namespaced_name_eq}
use k8s_countermeasures.Api.Types.{CounterMeasure}
use k8s_countermeasures.EventBus.Bus.{
  Bus, valid, WorkQueue, finish, process_next_work_item, receive, Received, closed, waits,
  interrupted, consumer_buffer_size,
}
use k8s_countermeasures.EventBus.Bus
use k8s_countermeasures.EventBus.Bus.Sending.{count, buffer_of}
use k8s_countermeasures.EventBus.Bus.Reaching.{message_of}
use k8s_countermeasures.EventBus.Matcher.Topics.{enclosing, subscribed}
use k8s_countermeasures.EventBus.Bus.Invariant.{IsValid}
use k8s_countermeasures.State
use k8s_countermeasures.Actions.Cluster.{Cluster}
use k8s_countermeasures.Actions.Perform.{Action}
use k8s_countermeasures.Actions.Registry.Builds.{registry, AreBuilt}
use k8s_countermeasures.Actions.Runner.{Retry, RunState, run}
use k8s_countermeasures.Actions.Manager.{Manager, Consumer, Round, serve}
use k8s_countermeasures.Actions.Manager.Installing.{name_of}
use k8s_countermeasures.Actions.Manager.Throttle.{outcome}
use k8s_countermeasures.Producer.Prometheus.{Alert, PrometheusConfig}
use k8s_countermeasures.Producer.Prometheus.Polling.{event_of}

-- The round that a consumer's read leads to, with its times, if it is an event.
abbrev pub rounds_read : Received → ℤ → ℤ → ℤ → List Round
rounds_read (Bus.event e) found checked started =
    record { event = e; found = found; checked = checked; started = started } ∷ []
rounds_read closed found checked started = []
rounds_read waits found checked started = []

module _ (c : Cluster) (retry : Retry c.World) (cm : CounterMeasure) where
  module _ (q : WorkQueue) (queue_retry : Retry q.Queue) (config : PrometheusConfig)
      (alert : Alert) where
    -- What comes of the poll of the alert: a worker takes the next item off the queue and processes it,
    -- with no panic. Either the rounds of the countermeasure with what its consumer then reads are the run
    -- of its actions for the event of the alert, or a channel that waits for the alert was full, and the
    -- queue has its message again.
    abbrev pub ActsOrIsQueued : Manager → q.Queue → q.Queue → ℤ → ℤ → ℤ → RunState c.World → Type 0
    ActsOrIsQueued m' queue rest found checked started rs =
        let message = message_of (event_of alert) config.key.namespaced_name in
        (b' : Bus) × (queue' : q.Queue) × (process_next_work_item q m'.bus queue
          ≡ some (true, b', queue'))
        × IsValid b'
        × ((xs : List Action) × AreBuilt cm.spec.dry_run cm.spec.actions xs
            × (((consumer : Consumer) × (lookup (name_of cm.object_meta) m'.consumers
                    ≡ some consumer)
                  × (outcome c retry registry cm xs (
                        serve c retry registry m'.state (to_key cm.object_meta)
                          (rounds_read (receive consumer.channel b'.channels).0 found checked
                            started)
                          rs)
                      ≡ run c retry cm (event_of alert) xs rs))
                ⊎ ((queue' ≡ finish q (valid message) rest interrupted)
                    × ((full : ℕ) × (0
                          < count full (subscribed m'.bus.subscribers (enclosing message.topic)))
                        × (consumer_buffer_size ≤ length (buffer_of full b'.channels))))))
