-- ===== src/Actions/Manager.antt =====
-- pkg/actions/manager.go: the manager subscribes each countermeasure to its event and handles the
-- events that arrive. `handle` is one round of the goroutine that `Add` starts; the three times are
-- those of its calls of `time.Now()`, and `none` is a panic.
pub mod Handling
pub mod Installing
pub mod Reached
pub mod Serving
pub mod Limits
pub mod Throttle
pub mod Firing
pub mod Acting
use k8s_countermeasures.Prelude.{
  Text, Map, lookup, insert, delete, if◌then◌else◌, Option, none, some, List, [], ◌∷◌, ◌++◌, Bool,
  true, false, ℕ,
}
use k8s_countermeasures.Prelude.Int.{ℤ}
use k8s_countermeasures.Manager.{NamespacedName, ObjectMeta, ObjectKey, namespaced_name_eq, to_key}
use k8s_countermeasures.Outcome.{Outcome, Error, ok, err, panic}
use k8s_countermeasures.Events.{Event}
use k8s_countermeasures.Api.Types.{CounterMeasure, LabelSelector}
use k8s_countermeasures.EventBus.Bus.{Bus, subscribe, unsubscribe}
use k8s_countermeasures.State
use k8s_countermeasures.State.{
  ActionState, Entry, counter_measure_start, counter_measure_end, get_counter_measure,
  is_suppressed,
}
use k8s_countermeasures.Actions.Cluster.{Cluster}
use k8s_countermeasures.Actions.Registry.{Registry, new_runner}
use k8s_countermeasures.Actions.Runner.{Retry, RunState, run, skipping}

-- The topic and the channel of an `EventConsumer`.
pub record Consumer : Type 0 where
  pub topic : Text
  pub channel : ℕ

pub record Manager : Type 0 where
  pub consumers : Map NamespacedName Consumer
  pub state : ActionState
  pub bus : Bus

-- An event that the goroutine takes off its channel, and the times of the round's three calls of
-- `time.Now()`.
pub record Round : Type 0 where
  pub event : Event
  pub found : ℤ
  pub checked : ℤ
  pub started : ℤ

-- `select_sources` is the lookup of the sources of a selector, whose result is only its error.
module _ (select_sources : LabelSelector → Option Error) where
  unfoldable pub source_error : Option LabelSelector → Option Error
  source_error none = none
  source_error (some selector) = select_sources selector

  unfoldable pub add : Manager → CounterMeasure → Outcome Manager
  unfolding source_error
  add m cm = elim (source_error cm.spec.on_event.source_selector) [
    | some e ↦ err e
    | none ↦
        let topic = cm.spec.on_event.event_name in
        let (ch, bus) = subscribe m.bus topic in
        ok (record {
          consumers =
              insert (to_key cm.object_meta).namespaced_name
                (record { topic = topic; channel = ch }) m.consumers;
          state = State.add m.state cm;
          bus = bus;
        })
  ]

-- `consumer.UnSubscribe()`, if there is a consumer.
unfoldable pub unsubscribe_consumer : Option Consumer → Bus → Option Bus
unsubscribe_consumer none bus = some bus
unsubscribe_consumer (some c) bus = unsubscribe bus c.topic c.channel

unfoldable pub remove : Manager → NamespacedName → Option Manager
unfolding unsubscribe_consumer
remove m name = elim (unsubscribe_consumer (lookup name m.consumers) m.bus) [
  | none ↦ none
  | some bus ↦
      some (record {
        consumers = delete name m.consumers;
        state = State.remove m.state name;
        bus = bus;
      })
]

unfoldable pub exists : Manager → ObjectMeta → Bool
unfolding to_key
exists m meta = elim (lookup (to_key meta).namespaced_name m.consumers) [
  | none ↦ false
  | some _ ↦ true
]

module _ (c : Cluster) (retry : Retry c.World) (registry : Registry) where
  unfoldable pub skip : RunState c.World → RunState c.World
  skip rs = record rs { events = rs.events ++ skipping ∷ [] }

  unfoldable pub execute :
      ActionState
      → Entry
      → Event
      → ObjectKey
      → ℤ
      → RunState c.World
      → Option (ActionState × RunState c.World)
  execute s entry event key started rs = elim (new_runner registry entry.counter_measure.spec) [
    | err _ ↦ some (s, rs)
    | panic ↦ none
    | ok xs ↦ elim (counter_measure_start s event key started) [
      | none ↦ none
      | some s' ↦ elim (run c retry entry.counter_measure event xs rs) [
        | none ↦ none
        | some rs' ↦ elim (counter_measure_end s' key) [ none ↦ none | some s'' ↦ some (s'', rs') ]
      ]
    ]
  ]

  unfoldable pub handle :
      ActionState
      → Event
      → ObjectKey
      → ℤ
      → ℤ
      → ℤ
      → RunState c.World
      → Option (ActionState × RunState c.World)
  unfolding skip execute
  handle s event key found checked started rs =
      let (entry, s') = get_counter_measure s key found in
      elim entry [
        | none ↦ some (s', rs)
        | some e ↦
            if is_suppressed e event checked
            then some (s', skip rs)
            else execute s' e event key started rs
      ]

  -- `for evt := range c.OnEvent()`, over the events that arrive until the channel is closed, while
  -- no other goroutine changes the state: what a removal in a round does is in State/Deployment.
  unfoldable pub serve :
      ActionState
      → ObjectKey
      → List Round
      → RunState c.World
      → Option (ActionState × RunState c.World)
  serve s key [] rs = some (s, rs)
  serve s key (r ∷ rest) rs = elim (handle s r.event key r.found r.checked r.started rs) [
    | none ↦ none
    | some (s', rs') ↦ serve s' key rest rs'
  ]
