-- ===== src/State/Deployment.antt =====
-- pkg/actions/state/state.go: which keys are deployed after each method, and which calls panic.
use k8s_countermeasures.Prelude.{
  text_eq, lookup-insert, lookup-delete_where, ◌==◌, ==_iff, ==_refl, none, some, false, ◌||◌, ◌&&◌,
  not, ◌≡◌, ◌↔◌, arith,
}
use k8s_countermeasures.Prelude.Int.{ℤ}
use k8s_countermeasures.Manager.{
  NamespacedName, ObjectKey, namespaced_name_eq, object_key_eq, to_key,
}
use k8s_countermeasures.Events.{Event}
use k8s_countermeasures.Api.Types.{CounterMeasure}
use k8s_countermeasures.State.{
  ActionState, counter_measure_start, counter_measure_end, is_deployed, remove, add, new_entry,
}

-- After `Add` a key is deployed exactly when it is the new countermeasure's, or was deployed before
-- under another namespaced name: every older generation is gone.
pub is_deployed-add :
    (s : ActionState) (cm : CounterMeasure) (key : ObjectKey)
    → is_deployed (add s cm) key ≡ (
        key == to_key cm.object_meta
        || (is_deployed s key
            && not (key.namespaced_name == (to_key cm.object_meta).namespaced_name)))
unfolding is_deployed add
is_deployed-add s cm key = ground (
  arith,
  ==_iff key (to_key cm.object_meta),
  ==_iff (to_key cm.object_meta) key,
  lookup-insert (to_key cm.object_meta) key (new_entry cm)
      (remove s (to_key cm.object_meta).namespaced_name).measures,
  lookup-delete_where (λ k. k.namespaced_name == (to_key cm.object_meta).namespaced_name) key
      s.measures,
)

-- After `Remove` exactly the keys of other names that were deployed are still deployed.
pub is_deployed-remove :
    (s : ActionState) (name : NamespacedName) (key : ObjectKey)
    → is_deployed (remove s name) key ≡ (is_deployed s key && not (key.namespaced_name == name))
unfolding is_deployed remove
is_deployed-remove s name key =
    ground (arith, lookup-delete_where (λ k. k.namespaced_name == name) key s.measures)

-- Starting a countermeasure, and ending it, panics exactly when its key is not deployed.
pub start_panics :
    (s : ActionState) (event : Event) (key : ObjectKey) (now : ℤ)
    → (counter_measure_start s event key now ≡ none) ↔ (is_deployed s key ≡ false)
unfolding counter_measure_start is_deployed
start_panics s event key now = ground arith

pub end_panics :
    (s : ActionState) (key : ObjectKey)
    → (counter_measure_end s key ≡ none) ↔ (is_deployed s key ≡ false)
unfolding counter_measure_end is_deployed
end_panics s key = ground arith

-- A countermeasure that is removed between its start and its end panics the program at its end.
pub removed_while_running :
    (s t : ActionState) (event : Event) (key : ObjectKey) (now : ℤ)
    → counter_measure_start s event key now ≡ some t
    → counter_measure_end (remove t key.namespaced_name) key ≡ none
removed_while_running s t event key now h =
    (end_panics (remove t key.namespaced_name) key).1
      (ground (arith, is_deployed-remove t key.namespaced_name key, ==_refl key.namespaced_name))
