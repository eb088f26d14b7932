-- ===== src/Actions/Manager/Reached.antt =====
-- An alert on its way from a source, over the bus, to the channel of the countermeasure that waits for
-- it: `poll` of the Prometheus source, `processNextWorkItem` of the bus and `Add` of the manager.
use k8s_countermeasures.Prelude.{text_eq, nat_eq, lookup, length, ℕ, ◌≤◌, ◌<◌, some, ◌≡◌, ◌⊎◌}
use k8s_countermeasures.Manager.{NamespacedName, namespaced_name_eq}
use k8s_countermeasures.Events.{Event}
use k8s_countermeasures.Api.Types.{CounterMeasure}
use k8s_countermeasures.EventBus.Matcher.Topics.{enclosing, subscribed}
use k8s_countermeasures.EventBus.Bus.{
  Bus, Message, valid, WorkQueue, Delivery, delivered, interrupted, consumer_buffer_size, process,
  finish, receive,
}
use k8s_countermeasures.EventBus.Bus
use k8s_countermeasures.EventBus.Bus.Sending.{count, buffer_of}
use k8s_countermeasures.EventBus.Bus.Invariant.{IsValid}
use k8s_countermeasures.Actions.Manager.{Manager, Consumer}
use k8s_countermeasures.Actions.Manager.Installing.{name_of}
use k8s_countermeasures.EventBus.Bus.Reaching.{message_of}

module _ (q : WorkQueue) where
  -- The processing of the alert's message on the manager's bus: either the countermeasure's consumer
  -- reads the event next, or one of those that wait for the alert was full and the queue has the
  -- message again.
  abbrev pub Arrives : Manager → CounterMeasure → Event → NamespacedName → q.Queue → Type 0
  Arrives m cm event source queue =
      let message = message_of event source in
      (d : Delivery) × (b' : Bus) × (c : Consumer) × (process q (valid message) m.bus queue
        ≡ some (b', finish q (valid message) queue d))
      × IsValid b'
      × (lookup (name_of cm.object_meta) m.consumers ≡ some c)
      × (((d ≡ delivered) × ((receive c.channel b'.channels).0 ≡ Bus.event event))
          ⊎ ((d ≡ interrupted)
              × ((full : ℕ) × (0
                    < count full (subscribed m.bus.subscribers (enclosing message.topic)))
                  × (consumer_buffer_size ≤ length (buffer_of full b'.channels)))))
