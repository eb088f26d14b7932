-- ===== src/Tests/BusTests.antt =====
-- The bus, the topics, the keys of events and the polls at concrete inputs.
use k8s_countermeasures.Prelude.{
  Text, text_eq, nat_eq, codes, contains, is_empty, some, List, [], ◌∷◌, ◌++◌, false, not, ◌≡◌, ◌≢◌,
  refl, arith,
}
use k8s_countermeasures.Prelude.Int.{pos}
use k8s_countermeasures.Outcome.{ok}
use k8s_countermeasures.Events.{key}
use k8s_countermeasures.Events.Key.{key_collision, with_data}
use k8s_countermeasures.EventBus.Matcher.{Subscribers, subscriber_match, colon}
use k8s_countermeasures.EventBus.Matcher.Topics.{enclosing, subscribed, subscriber_match_lem}
use k8s_countermeasures.EventBus.Bus.{
  Bus, Message, valid, new_bus, subscribe, process, finish, Delivery,
}
use k8s_countermeasures.EventBus.Bus.Sending.{Delivers}
use k8s_countermeasures.EventBus.Bus.Invariant.{IsValid, new_bus-IsValid, subscribe-IsValid}
use k8s_countermeasures.EventBus.Bus.Dispatch.{process-Delivers}
use k8s_countermeasures.Producer.Prometheus.{Alert, firing, pending, PrometheusConfig, poll}
use k8s_countermeasures.Producer.Prometheus.Polling.{published, poll_publishes}
use k8s_countermeasures.Tests.Fixtures.{event, name, work_queue, queue_retry}
use k8s_countermeasures.Tests.Fixtures

abbrev topic : Text
topic = codes "high"

abbrev one_subscriber : Bus
one_subscriber = (subscribe new_bus topic).1

abbrev message : Message
message = record { event = event; topic = codes "high:ns:cm" }

process-Delivers_example :
    (d : Delivery) × (b' : Bus) × (process work_queue (valid message) one_subscriber []
      ≡ some (b', finish work_queue (valid message) [] d))
    × IsValid b'
    × (b'.subscribers ≡ one_subscriber.subscribers)
    × Delivers
        (subscribed one_subscriber.subscribers (enclosing message.topic))
        event
        one_subscriber.channels
        b'.channels
        d
process-Delivers_example =
    process-Delivers work_queue one_subscriber message []
      (subscribe-IsValid new_bus topic new_bus-IsValid)

abbrev subscribers : Subscribers
subscribers = (codes "high", 0 ∷ []) ∷ (codes "high:ns", 1 ∷ []) ∷ []

subscriber_match_lem_example : subscriber_match subscribers (codes "high:ns") ≡ (
  subscribed subscribers (enclosing (codes "high:ns")),
  not (is_empty (subscribed subscribers (enclosing (codes "high:ns")))),
)
subscriber_match_lem_example = subscriber_match_lem subscribers (codes "high:ns")

plain_topic : contains colon topic ≡ false
unfolding contains
plain_topic = refl

plain_namespace : contains colon name.namespace ≡ false
unfolding contains
plain_namespace = refl

plain_name : contains colon name.name ≡ false
unfolding contains
plain_name = refl

named : name.name ≢ []
named e = cc

a_before_b : codes "a" ≢ codes "b"
a_before_b e = ground arith

key_collision_example :
    key (with_data event ((codes "a", codes "x" ++ codes "y") ∷ (codes "b", codes "z") ∷ []))
    ≡ key (with_data event ((codes "a", codes "x") ∷ (codes "b", codes "y" ++ codes "z") ∷ []))
key_collision_example =
    key_collision event (codes "a") (codes "b") (codes "x") (codes "y") (codes "z") a_before_b refl

abbrev alerts : List Alert
alerts =
    record { state = firing; active_at = pos 1; labels = (codes "alertname", codes "high") ∷ [] }
    ∷ record { state = pending; active_at = pos 2; labels = (codes "alertname", codes "low") ∷ [] }
    ∷ []

abbrev config : PrometheusConfig
config = record { poll_interval = pos 30; include_pending = false; key = Fixtures.key }

poll_publishes_example :
    poll work_queue queue_retry config (ok alerts) []
    ≡ published work_queue queue_retry config alerts []
poll_publishes_example = poll_publishes work_queue queue_retry config alerts []
