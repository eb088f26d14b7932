-- ===== src/Tests/ActionTests.antt =====
-- The runs of countermeasures, and their installation, at concrete inputs.
use k8s_countermeasures.Prelude.{
  text_eq, ◌==◌, Option, none, some, List, [], ◌∷◌, true, false, ℕ, ◌||◌, ◌&&◌, not, ◌≡◌, ◌≢◌, refl,
  arith,
}
use k8s_countermeasures.Manager.{ObjectMeta, ObjectKey, to_key, namespaced_name_eq, object_key_eq}
use k8s_countermeasures.Outcome.{ok}
use k8s_countermeasures.Api.Types.{LabelSelector}
use k8s_countermeasures.Outcome.{Error}
use k8s_countermeasures.EventBus.Bus.{new_bus}
use k8s_countermeasures.EventBus.Bus.Invariant
use k8s_countermeasures.EventBus.Bus.Invariant.{new_bus-IsValid}
use k8s_countermeasures.State.{new_state, is_deployed}
use k8s_countermeasures.Actions.Perform.{
  Action, perform, get_target_object_name, supports_retry, new_base,
}
use k8s_countermeasures.Actions.Registry.{new_runner, new_runner_loop}
use k8s_countermeasures.Actions.Registry.Builds.{
  registry, create_lem, new_runner_of_admitted, AreBuilt,
}
use k8s_countermeasures.Actions.Runner.{RunState, run, attempt}
use k8s_countermeasures.Actions.Runner.Trace.{run-dry_run, run-Traced, Traced}
use k8s_countermeasures.Actions.Manager.{Manager, add, remove, exists}
use k8s_countermeasures.Actions.Manager.Installing.{
  add_installs, remove_removes, name_of, installed,
}
use k8s_countermeasures.Api.Validation.{validate_spec}
use k8s_countermeasures.Api.Validation.Admission.{validate_spec_iff, deletes}
use k8s_countermeasures.Tests.Fixtures.{
  action_spec, target, aggregates, cluster, retry, kill, begin, cm, with_dry_run, event, name,
}

runs_dry : new_runner registry (with_dry_run true).spec ≡ ok (kill true ∷ [])
unfolding new_runner new_runner_loop
runs_dry = ground (arith, create_lem action_spec true)

runs : new_runner registry cm.spec ≡ ok (kill false ∷ [])
unfolding new_runner new_runner_loop
runs = ground (arith, create_lem action_spec false)

-- The state of the run, where it does not panic.
abbrev result : Option (RunState ℕ) → RunState ℕ
result none = begin
result (some s) = s

abbrev dry_end : RunState ℕ
dry_end = result (run cluster retry (with_dry_run true) event (kill true ∷ []) begin)

dry_ends : run cluster retry (with_dry_run true) event (kill true ∷ []) begin ≡ some dry_end
unfolding run attempt perform get_target_object_name
dry_ends = refl

run-dry_run_example : dry_end.world ≡ begin.world
run-dry_run_example =
    run-dry_run cluster retry (with_dry_run true) event (kill true ∷ []) begin dry_end refl runs_dry
      dry_ends

abbrev real_end : RunState ℕ
real_end = result (run cluster retry cm event (kill false ∷ []) begin)

really_ends : run cluster retry cm event (kill false ∷ []) begin ≡ some real_end
unfolding run attempt perform get_target_object_name
really_ends = refl

run-Traced_example : Traced cluster retry cm event (kill false ∷ []) begin real_end
run-Traced_example = run-Traced cluster retry cm event (kill false ∷ []) begin real_end really_ends

no_retries : supports_retry (kill false) ≡ false
unfolding new_base supports_retry
no_retries = refl

named : cm.spec.on_event.event_name ≢ []
named e = cc

acts : cm.spec.actions ≢ []
acts e = cc

admitted : validate_spec aggregates cm.spec ≡ none
admitted =
    (validate_spec_iff aggregates cm.spec).1
      (record { named = named; acts = acts; typed = (deletes target refl refl refl refl, tt) })

new_runner_of_admitted_example :
    (xs : List Action) × (new_runner registry cm.spec ≡ ok xs)
    × AreBuilt cm.spec.dry_run cm.spec.actions xs
new_runner_of_admitted_example = new_runner_of_admitted aggregates cm.spec admitted

abbrev manager : Manager
manager = record { consumers = []; state = new_state; bus = new_bus }

abbrev no_sources : LabelSelector → Option Error
no_sources selector = none

abbrev after_add : Manager
after_add = installed manager cm

added : add no_sources manager cm ≡ ok after_add
unfolding add
added = refl

add_installs_example :
    Invariant.IsValid after_add.bus
    × ((m : ObjectMeta)
        → exists after_add m ≡ (name_of cm.object_meta == name_of m || exists manager m))
    × ((k : ObjectKey)
        → is_deployed after_add.state k ≡ (
            k == to_key cm.object_meta
            || (is_deployed manager.state k && not (k.namespaced_name == name_of cm.object_meta))))
add_installs_example = add_installs no_sources manager after_add cm new_bus-IsValid added

remove_removes_example :
    (m' : Manager) × (remove manager name ≡ some m')
    × Invariant.IsValid m'.bus
    × ((m : ObjectMeta) → exists m' m ≡ (exists manager m && not (name_of m == name)))
    × ((k : ObjectKey)
        → is_deployed m'.state k ≡ (is_deployed manager.state k && not (k.namespaced_name == name)))
remove_removes_example = remove_removes manager name new_bus-IsValid
