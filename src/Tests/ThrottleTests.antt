-- ===== src/Tests/ThrottleTests.antt =====
-- The goroutine of a countermeasure over several rounds, at concrete events and alerts.
use mathlib.Core.List.{Permᴰ}
use k8s_countermeasures.Prelude.{
  Text, text_eq, codes, lookup, Map, DistinctKeys, none, some, List, [], ◌∷◌, true, false, ◌≡◌,
  refl, arith,
}
use k8s_countermeasures.Prelude.Int.{pos, ◌+ℤ◌, lt_ℤ}
use k8s_countermeasures.Manager.{to_key}
use k8s_countermeasures.Outcome.{ok}
use k8s_countermeasures.Events.{Event}
use k8s_countermeasures.State
use k8s_countermeasures.State.{new_state, policy_duration}
use k8s_countermeasures.Actions.Registry.{new_runner, new_runner_loop}
use k8s_countermeasures.Actions.Registry.Builds.{registry, create_lem}
use k8s_countermeasures.Actions.Runner.{run}
use k8s_countermeasures.Actions.Manager.{Round, serve}
use k8s_countermeasures.Actions.Manager.Serving.{skips}
use k8s_countermeasures.Actions.Manager.Limits.{throttled}
use k8s_countermeasures.Actions.Manager.Throttle.{outcome, installed_throttles}
use k8s_countermeasures.Actions.Manager.Firing.{
  Sighting, rounds_of, count_sightings, firing_alert_acts_once,
}
use k8s_countermeasures.Producer.Prometheus.{firing, pending, to_event}
use k8s_countermeasures.Tests.Fixtures.{action_spec, cluster, retry, kill, begin, cm, event}

runs : new_runner registry cm.spec ≡ ok (kill false ∷ [])
unfolding new_runner new_runner_loop
runs = ground (arith, create_lem action_spec false)

lasting : policy_duration cm.spec.on_event.suppression_policy ≡ some (pos 60)
unfolding policy_duration
lasting = refl

-- An event, the same while it is suppressed, another one, and the first again after that.
abbrev other : Event
other = record event { name = codes "low" }

abbrev rounds : List Round
rounds =
    record { event = event; found = pos 100; checked = pos 100; started = pos 101 }
    ∷ record { event = event; found = pos 120; checked = pos 121; started = pos 121 }
    ∷ record { event = other; found = pos 130; checked = pos 130; started = pos 130 }
    ∷ record { event = event; found = pos 162; checked = pos 162; started = pos 162 }
    ∷ []

installed_throttles_example :
    outcome cluster retry registry cm
      (kill false ∷ [])
      (serve cluster retry registry (State.add new_state cm) (to_key cm.object_meta) rounds begin)
    ≡ throttled cluster retry registry cm (kill false ∷ []) (λ k. none) rounds begin
installed_throttles_example =
    installed_throttles cluster retry registry new_state cm (kill false ∷ []) (pos 0) rounds begin
      runs (ground arith)

-- An alert that is pending, and then fires with its labels walked in another order.
abbrev labels : Map Text Text
labels = (codes "alertname", codes "high") ∷ (codes "pod", codes "web") ∷ []

abbrev swapped : Map Text Text
swapped = (codes "pod", codes "web") ∷ (codes "alertname", codes "high") ∷ []

abbrev first : Sighting
first = record {
  alert = record { state = pending; active_at = pos 90; labels = labels };
  found = pos 100;
  checked = pos 100;
  started = pos 101;
}

abbrev again : Sighting
again = record {
  alert = record { state = firing; active_at = pos 95; labels = swapped };
  found = pos 115;
  checked = pos 116;
  started = pos 116;
}

distinct : DistinctKeys labels
unfolding lookup
distinct = (refl, (refl, tt))

before : lt_ℤ (pos 116) (pos 101 +ℤ pos 60) ≡ true
unfolding ◌+ℤ◌
before = refl

firing_alert_acts_once_example :
    outcome cluster retry registry cm (kill false ∷ []) (
      serve cluster retry registry
        (State.add new_state cm)
        (to_key cm.object_meta)
        (rounds_of (first ∷ again ∷ again ∷ []))
        begin)
    ≡ elim (run cluster retry cm (to_event first.alert) (kill false ∷ []) begin) [
      | none ↦ none
      | some rs' ↦ some (skips cluster retry registry (count_sightings (again ∷ again ∷ [])) rs')
    ]
firing_alert_acts_once_example =
    firing_alert_acts_once cluster retry registry cm (kill false ∷ []) new_state first
      (again ∷ again ∷ []) (pos 60) (pos 0) begin runs lasting distinct (ground arith)
      (∣ Permᴰ.swap refl refl ∣₁, before, (∣ Permᴰ.swap refl refl ∣₁, before, tt))
