-- ===== src/Actions/Manager/Firing.antt =====
-- An alert that keeps firing, from the polls of its source (pkg/producer/prometheus) to the rounds of
-- a countermeasure.
use mathlib.Core.List.{Perm}
use k8s_countermeasures.Prelude.{
  text_eq, codes, DistinctKeys, ℕ, zero, suc, none, some, List, [], ◌∷◌, true, ◌≡◌, refl, sym, ap,
  ◌∙◌, arith, inl, inr, Option-cases, ==_iff,
}
use k8s_countermeasures.Prelude.Int.{ℤ, ◌+ℤ◌, lt_ℤ}
use k8s_countermeasures.Manager.{to_key}
use k8s_countermeasures.Outcome.{ok}
use k8s_countermeasures.Events
use k8s_countermeasures.Events.Key.{key-perm, with_data, get-perm, key_parts}
use k8s_countermeasures.Api.Types.{CounterMeasure}
use k8s_countermeasures.State
use k8s_countermeasures.State.{ActionState, policy_duration}
use k8s_countermeasures.Actions.Cluster.{Cluster}
use k8s_countermeasures.Actions.Perform.{Action}
use k8s_countermeasures.Actions.Registry.{Registry, new_runner}
use k8s_countermeasures.Actions.Runner.{Retry, RunState, run}
use k8s_countermeasures.Actions.Manager.{Round, serve, skip}
use k8s_countermeasures.Actions.Manager.Serving.{skips}
use k8s_countermeasures.Actions.Manager.Limits.{is_ahead, Limits, limited, throttled, InOrder}
use k8s_countermeasures.Actions.Manager.Throttle.{
  outcome, installed_throttles, throttled_skips, throttled_performs,
}
use k8s_countermeasures.Producer.Prometheus.{Alert, to_event}
use k8s_countermeasures.Producer.Prometheus.Polling.{event_of, to_event_lem}

-- An alert as a poll returned it, and the times of the round that its event gets.
pub record Sighting : Type 0 where
  pub alert : Alert
  pub found : ℤ
  pub checked : ℤ
  pub started : ℤ

abbrev pub round_of : Sighting → Round
round_of s = record {
  event = to_event s.alert;
  found = s.found;
  checked = s.checked;
  started = s.started;
}

abbrev pub rounds_of : List Sighting → List Round
rounds_of [] = []
rounds_of (s ∷ sightings) = round_of s ∷ rounds_of sightings

-- The same labels, in whatever order the maps are walked, each time before the limit.
abbrev pub AllRepeat : Alert → ℤ → List Sighting → Type 0
AllRepeat a limit [] = Unit {0}
AllRepeat a limit (s ∷ sightings) =
    Perm a.labels s.alert.labels × (lt_ℤ s.checked limit ≡ true) × AllRepeat a limit sightings

abbrev pub count_sightings : List Sighting → ℕ
count_sightings [] = zero
count_sightings (s ∷ sightings) = suc (count_sightings sightings)

repeated-key :
    (a b : Alert)
    → DistinctKeys a.labels
    → Perm a.labels b.labels
    → Events.key (to_event a) ≡ Events.key (to_event b)
repeated-key a b d p =
    ap Events.key (to_event_lem a)
    ∙ key-perm (event_of a) a.labels b.labels d p
    ∙ key_parts (with_data (event_of a) b.labels) (event_of b)
        (get-perm a.labels b.labels (codes "alertname") d p) refl
    ∙ sym (ap Events.key (to_event_lem b))

module _ (c : Cluster) (retry : Retry c.World) (registry : Registry) (cm : CounterMeasure)
    (xs : List Action) where
  throttled_repeats :
      (a : Alert) (limits : Limits) (limit : ℤ) (sightings : List Sighting) (rs : RunState c.World)
      → DistinctKeys a.labels
      → limits (Events.key (to_event a)) ≡ some limit
      → AllRepeat a limit sightings
      → throttled c retry registry cm xs limits (rounds_of sightings) rs
        ≡ some (skips c retry registry (count_sightings sightings) rs)
  throttled_repeats a limits limit [] rs d h all = refl
  throttled_repeats a limits limit (s ∷ sightings) rs d h (p, before, all) =
      let mine : is_ahead (limits (Events.key (to_event s.alert))) s.checked ≡ true =
        ap (λ k. is_ahead (limits k) s.checked) (sym (repeated-key a s.alert d p))
        ∙ ap (λ l. is_ahead l s.checked) h
        ∙ before in
      throttled_skips c retry registry cm xs limits (round_of s) (rounds_of sightings) rs mine
      ∙ throttled_repeats a limits limit sightings (skip c retry registry rs) d h all

  -- An alert that keeps firing acts once: of a countermeasure with a suppression policy that was
  -- just installed, and has a runner, the round of the first event that the producer makes of an
  -- alert performs the actions, and if they do not panic each later event of an alert with the
  -- same labels is skipped, while the policy's duration runs from the start of that round. The
  -- state of the alert, its time and the order in which its labels are walked make no difference;
  -- no label stands twice, and the clock does not go back.
  pub firing_alert_acts_once :
      (s : ActionState) (first : Sighting) (repeats : List Sighting) (d t : ℤ)
      (rs : RunState c.World)
      → new_runner registry cm.spec ≡ ok xs
      → policy_duration cm.spec.on_event.suppression_policy ≡ some d
      → DistinctKeys first.alert.labels
      → InOrder t (rounds_of (first ∷ repeats))
      → AllRepeat first.alert (first.started +ℤ d) repeats
      → outcome c retry registry cm xs (
          serve c retry registry
            (State.add s cm)
            (to_key cm.object_meta)
            (rounds_of (first ∷ repeats))
            rs)
        ≡ elim (run c retry cm (to_event first.alert) xs rs) [
          | none ↦ none
          | some rs' ↦ some (skips c retry registry (count_sightings repeats) rs')
        ]
  firing_alert_acts_once s first repeats d t rs runner policy distinct order all =
      installed_throttles c retry registry s cm xs t (rounds_of (first ∷ repeats)) rs runner order
      ∙ throttled_performs c retry registry cm xs (λ k. none) (round_of first) (rounds_of repeats)
          rs refl
      ∙ (elim (Option-cases (run c retry cm (to_event first.alert) xs rs)) [
        | inl panics ↦ rw panics refl
        | inr (rs', performed) ↦ rw performed (
            throttled_repeats first.alert
              (limited (policy_duration cm.spec.on_event.suppression_policy)
                (Events.key (to_event first.alert)) first.started (λ k. none))
              (first.started +ℤ d) repeats rs' distinct
              (ground (
                arith,
                policy,
                ==_iff (Events.key (to_event first.alert)) (Events.key (to_event first.alert)),
              ))
              all)
      ])
