-- ===== src/Memory/Stored.antt =====
-- The types of objects that stand at an address, each with its constructor of `Cell`: what is read at
-- an address must have been stored there with the same type.
use k8s_countermeasures.Prelude.{Text, refl, List, Option, none, some}
use k8s_countermeasures.Prelude.Int.{ℤ}
use k8s_countermeasures.Api.Types.{
  DeleteSpec, DeploymentReference, ObjectReference, PatchSpec, PodReference, RestartSpec,
}
use k8s_countermeasures.Memory.Objects.{
  ActionObject, Cell, CounterMeasureListObject, CounterMeasureObject, DebugObject, Foreign,
  OnEventObject, PolicyObject, SpecObject, StatusObject,
}
use k8s_countermeasures.Memory.Heap.{Storable}

abbrev pub foreign_of : Cell → Option Foreign
foreign_of (Cell.foreign x) = some x
foreign_of _ = none

instance abbrev pub foreign-Storable : Storable Foreign
foreign-Storable = record {
  to_cell = Cell.foreign;
  of_cell = foreign_of;
  of_cell-to_cell = λ x. refl;
}

abbrev pub string_of : Cell → Option Text
string_of (Cell.string x) = some x
string_of _ = none

instance abbrev pub string-Storable : Storable Text
string-Storable = record { to_cell = Cell.string; of_cell = string_of; of_cell-to_cell = λ x. refl }

abbrev pub strings_of : Cell → Option (List Text)
strings_of (Cell.strings x) = some x
strings_of _ = none

instance abbrev pub strings-Storable : Storable (List Text)
strings-Storable = record {
  to_cell = Cell.strings;
  of_cell = strings_of;
  of_cell-to_cell = λ x. refl;
}

abbrev pub duration_of : Cell → Option ℤ
duration_of (Cell.duration x) = some x
duration_of _ = none

instance abbrev pub duration-Storable : Storable ℤ
duration-Storable = record {
  to_cell = Cell.duration;
  of_cell = duration_of;
  of_cell-to_cell = λ x. refl;
}

abbrev pub object_reference_of : Cell → Option ObjectReference
object_reference_of (Cell.object_reference x) = some x
object_reference_of _ = none

instance abbrev pub object_reference-Storable : Storable ObjectReference
object_reference-Storable = record {
  to_cell = Cell.object_reference;
  of_cell = object_reference_of;
  of_cell-to_cell = λ x. refl;
}

abbrev pub pod_reference_of : Cell → Option PodReference
pod_reference_of (Cell.pod_reference x) = some x
pod_reference_of _ = none

instance abbrev pub pod_reference-Storable : Storable PodReference
pod_reference-Storable = record {
  to_cell = Cell.pod_reference;
  of_cell = pod_reference_of;
  of_cell-to_cell = λ x. refl;
}

abbrev pub deployment_reference_of : Cell → Option DeploymentReference
deployment_reference_of (Cell.deployment_reference x) = some x
deployment_reference_of _ = none

instance abbrev pub deployment_reference-Storable : Storable DeploymentReference
deployment_reference-Storable = record {
  to_cell = Cell.deployment_reference;
  of_cell = deployment_reference_of;
  of_cell-to_cell = λ x. refl;
}

abbrev pub delete_of : Cell → Option DeleteSpec
delete_of (Cell.delete x) = some x
delete_of _ = none

instance abbrev pub delete-Storable : Storable DeleteSpec
delete-Storable = record { to_cell = Cell.delete; of_cell = delete_of; of_cell-to_cell = λ x. refl }

abbrev pub patch_of : Cell → Option PatchSpec
patch_of (Cell.patch x) = some x
patch_of _ = none

instance abbrev pub patch-Storable : Storable PatchSpec
patch-Storable = record { to_cell = Cell.patch; of_cell = patch_of; of_cell-to_cell = λ x. refl }

abbrev pub restart_of : Cell → Option RestartSpec
restart_of (Cell.restart x) = some x
restart_of _ = none

instance abbrev pub restart-Storable : Storable RestartSpec
restart-Storable = record {
  to_cell = Cell.restart;
  of_cell = restart_of;
  of_cell-to_cell = λ x. refl;
}

abbrev pub debug_of : Cell → Option DebugObject
debug_of (Cell.debug x) = some x
debug_of _ = none

instance abbrev pub debug-Storable : Storable DebugObject
debug-Storable = record { to_cell = Cell.debug; of_cell = debug_of; of_cell-to_cell = λ x. refl }

abbrev pub policy_of : Cell → Option PolicyObject
policy_of (Cell.policy x) = some x
policy_of _ = none

instance abbrev pub policy-Storable : Storable PolicyObject
policy-Storable = record { to_cell = Cell.policy; of_cell = policy_of; of_cell-to_cell = λ x. refl }

abbrev pub on_event_of : Cell → Option OnEventObject
on_event_of (Cell.on_event x) = some x
on_event_of _ = none

instance abbrev pub on_event-Storable : Storable OnEventObject
on_event-Storable = record {
  to_cell = Cell.on_event;
  of_cell = on_event_of;
  of_cell-to_cell = λ x. refl;
}

abbrev pub action_of : Cell → Option ActionObject
action_of (Cell.action x) = some x
action_of _ = none

instance abbrev pub action-Storable : Storable ActionObject
action-Storable = record { to_cell = Cell.action; of_cell = action_of; of_cell-to_cell = λ x. refl }

abbrev pub actions_of : Cell → Option (List ActionObject)
actions_of (Cell.actions x) = some x
actions_of _ = none

instance abbrev pub actions-Storable : Storable (List ActionObject)
actions-Storable = record {
  to_cell = Cell.actions;
  of_cell = actions_of;
  of_cell-to_cell = λ x. refl;
}

abbrev pub conditions_of : Cell → Option (List Foreign)
conditions_of (Cell.conditions x) = some x
conditions_of _ = none

instance abbrev pub conditions-Storable : Storable (List Foreign)
conditions-Storable = record {
  to_cell = Cell.conditions;
  of_cell = conditions_of;
  of_cell-to_cell = λ x. refl;
}

abbrev pub spec_of : Cell → Option SpecObject
spec_of (Cell.spec x) = some x
spec_of _ = none

instance abbrev pub spec-Storable : Storable SpecObject
spec-Storable = record { to_cell = Cell.spec; of_cell = spec_of; of_cell-to_cell = λ x. refl }

abbrev pub status_of : Cell → Option StatusObject
status_of (Cell.status x) = some x
status_of _ = none

instance abbrev pub status-Storable : Storable StatusObject
status-Storable = record { to_cell = Cell.status; of_cell = status_of; of_cell-to_cell = λ x. refl }

abbrev pub counter_measure_of : Cell → Option CounterMeasureObject
counter_measure_of (Cell.counter_measure x) = some x
counter_measure_of _ = none

instance abbrev pub counter_measure-Storable : Storable CounterMeasureObject
counter_measure-Storable = record {
  to_cell = Cell.counter_measure;
  of_cell = counter_measure_of;
  of_cell-to_cell = λ x. refl;
}

abbrev pub counter_measures_of : Cell → Option (List CounterMeasureObject)
counter_measures_of (Cell.counter_measures x) = some x
counter_measures_of _ = none

instance abbrev pub counter_measures-Storable : Storable (List CounterMeasureObject)
counter_measures-Storable = record {
  to_cell = Cell.counter_measures;
  of_cell = counter_measures_of;
  of_cell-to_cell = λ x. refl;
}

abbrev pub counter_measure_list_of : Cell → Option CounterMeasureListObject
counter_measure_list_of (Cell.counter_measure_list x) = some x
counter_measure_list_of _ = none

instance abbrev pub counter_measure_list-Storable : Storable CounterMeasureListObject
counter_measure_list-Storable = record {
  to_cell = Cell.counter_measure_list;
  of_cell = counter_measure_list_of;
  of_cell-to_cell = λ x. refl;
}
