-- ===== src/Tests/StateTests.antt =====
-- The state at concrete inputs.
use k8s_countermeasures.Prelude.{text_eq, lookup, insert, delete_where, none, some, ◌≡◌, refl}
use k8s_countermeasures.Prelude.Int.{pos}
use k8s_countermeasures.Manager.{object_key_eq, namespaced_name_eq}
use k8s_countermeasures.State
use k8s_countermeasures.State.{
  ActionState, Entry, new_state, deploy, counter_measure_start, counter_measure_end,
  get_counter_measure, is_suppressed, is_running, within, record_run, remove,
}
use k8s_countermeasures.State.Suppression.{start_lem, started}
use k8s_countermeasures.State.Deployment.{removed_while_running}
use k8s_countermeasures.State.Validity.{IsValid}
use k8s_countermeasures.State.Calls.{
  Shared, begin, Steps, here, next, clears, deploys, gets, starts, new_state-Steps-IsValid,
}
use k8s_countermeasures.Tests.Fixtures.{name, key, cm, event, quiet_entry, deployed}

pub there : lookup key deployed.measures ≡ some quiet_entry
unfolding lookup
there = refl

abbrev running_entry : Entry
running_entry = record_run quiet_entry event (pos 100)

abbrev running_state : ActionState
running_state = started deployed quiet_entry event key (pos 100)

starts_it : counter_measure_start deployed event key (pos 100) ≡ some running_state
starts_it = start_lem deployed event key (pos 100) quiet_entry there

running_there : lookup key running_state.measures ≡ some running_entry
unfolding lookup insert
running_there = refl

removed_while_running_example : counter_measure_end (remove running_state name) key ≡ none
removed_while_running_example =
    removed_while_running deployed running_state event key (pos 100) starts_it

-- An event arrives between the two parts of the installation, and another after it.
abbrev half_added : Shared
half_added = record { state = remove new_state name; adding = some cm }

abbrev whole_added : Shared
whole_added = record { state = deploy half_added.state cm; adding = none }

abbrev after_calls : Shared
after_calls = record {
  state = started whole_added.state (State.new_entry cm) event key (pos 100);
  adding = none;
}

called : Steps begin after_calls
unfolding counter_measure_start get_counter_measure lookup insert delete_where new_state remove
    deploy
called =
    next (next (next (next here (clears cm refl)) (gets key (pos 50))) (deploys cm refl))
      (starts event key (pos 100))

new_state-Steps-IsValid_example : IsValid after_calls.state
new_state-Steps-IsValid_example = new_state-Steps-IsValid called
