-- ===== src/Memory/CounterMeasures.antt =====
-- apis/countermeasure/v1alpha1/zz_generated.deepcopy.go. A `DeepCopyInto` takes the object that `in`
-- points to and gives what it leaves in the object that `out` points to: `*out = *in`, and then the
-- fields that are copied. A `DeepCopy` takes and gives a pointer. The copies of the libraries' structs
-- are operations of an interface.
use k8s_countermeasures.Prelude.{ℕ, Text, none, some}
use k8s_countermeasures.Prelude.Int.{ℤ}
use k8s_countermeasures.Api.Types.{
  DeleteSpec, DeploymentReference, ObjectReference, PatchSpec, PodReference, RestartSpec,
}
use k8s_countermeasures.Memory.Objects.{
  ActionObject, CounterMeasureListObject, CounterMeasureObject, DebugObject, Foreign, OnEventObject,
  PolicyObject, SpecObject, StatusObject, Pointer,
}
use k8s_countermeasures.Memory.Heap.{Command, pure, ◌>>=◌, copy_pointer, copy_slice}
use k8s_countermeasures.Memory.Stored.{
  foreign-Storable, strings-Storable, duration-Storable, object_reference-Storable,
  pod_reference-Storable, deployment_reference-Storable, delete-Storable, patch-Storable,
  restart-Storable, debug-Storable, policy-Storable, on_event-Storable, action-Storable,
  actions-Storable, conditions-Storable, spec-Storable, status-Storable, counter_measure-Storable,
  counter_measures-Storable, counter_measure_list-Storable,
}

-- The `DeepCopyInto` of the structs of k8s.io/apimachinery.
pub record ForeignCopies : Type 0 where
  pub object_meta : Foreign → Command Foreign
  pub list_meta : Foreign → Command Foreign
  pub label_selector : Foreign → Command Foreign
  pub time : Foreign → Command Foreign
  pub condition : Foreign → Command Foreign

unfoldable pub deep_copy_into_object_reference : ObjectReference → Command ObjectReference
deep_copy_into_object_reference x = pure x

unfoldable pub deep_copy_into_pod_reference : PodReference → Command PodReference
deep_copy_into_pod_reference x = pure x

unfoldable pub deep_copy_into_deployment_reference :
    DeploymentReference → Command DeploymentReference
deep_copy_into_deployment_reference x = pure x

unfoldable pub deep_copy_into_delete : DeleteSpec → Command DeleteSpec
deep_copy_into_delete x = pure (record x { target_object_ref = x.target_object_ref })

unfoldable pub deep_copy_into_patch : PatchSpec → Command PatchSpec
deep_copy_into_patch x = pure (record x { target_object_ref = x.target_object_ref })

unfoldable pub deep_copy_into_restart : RestartSpec → Command RestartSpec
deep_copy_into_restart x = pure (record x { deployment_ref = x.deployment_ref })

unfoldable pub deep_copy_into_debug : DebugObject → Command DebugObject
deep_copy_into_debug x = do
  command ← copy_slice {X = Text} pure x.command
  args ← copy_slice {X = Text} pure x.args
  pure (record x { command = command; args = args; pod_ref = x.pod_ref })

unfoldable pub deep_copy_into_action : ActionObject → Command ActionObject
deep_copy_into_action x = do
  delete ← copy_pointer {X = DeleteSpec} pure x.delete
  patch ← copy_pointer {X = PatchSpec} pure x.patch
  debug ← copy_pointer deep_copy_into_debug x.debug
  restart ← copy_pointer {X = RestartSpec} pure x.restart
  pure (record x { delete = delete; patch = patch; debug = debug; restart = restart })

unfoldable pub deep_copy_into_policy : PolicyObject → Command PolicyObject
deep_copy_into_policy x = do
  duration ← copy_pointer {X = ℤ} pure x.duration
  pure (record x { duration = duration })

module _ (copies : ForeignCopies) where
  unfoldable pub deep_copy_into_on_event : OnEventObject → Command OnEventObject
  deep_copy_into_on_event x = do
    selector ← copy_pointer copies.label_selector x.source_selector
    policy ← copy_pointer deep_copy_into_policy x.suppression_policy
    pure (record x { source_selector = selector; suppression_policy = policy })

  unfoldable pub deep_copy_into_spec : SpecObject → Command SpecObject
  deep_copy_into_spec x = do
    on_event ← deep_copy_into_on_event x.on_event
    actions ← copy_slice deep_copy_into_action x.actions
    pure (record x { on_event = on_event; actions = actions })

  unfoldable pub deep_copy_into_status : StatusObject → Command StatusObject
  deep_copy_into_status x = do
    time ← copy_pointer copies.time x.last_status_change_time
    conditions ← copy_slice copies.condition x.conditions
    pure (record x { last_status_change_time = time; conditions = conditions })

  unfoldable pub deep_copy_into_counter_measure :
      CounterMeasureObject → Command CounterMeasureObject
  deep_copy_into_counter_measure x = do
    object_meta ← copies.object_meta x.object_meta
    spec ← deep_copy_into_spec x.spec
    status ← deep_copy_into_status x.status
    pure (record x {
      type_meta = x.type_meta;
      object_meta = object_meta;
      spec = spec;
      status = status;
    })

  unfoldable pub deep_copy_into_counter_measure_list :
      CounterMeasureListObject → Command CounterMeasureListObject
  deep_copy_into_counter_measure_list x = do
    list_meta ← copies.list_meta x.list_meta
    items ← copy_slice deep_copy_into_counter_measure x.items
    pure (record x { type_meta = x.type_meta; list_meta = list_meta; items = items })

-- The methods `DeepCopy`.
unfoldable pub deep_copy_object_reference : Pointer → Command Pointer
deep_copy_object_reference = copy_pointer deep_copy_into_object_reference

unfoldable pub deep_copy_pod_reference : Pointer → Command Pointer
deep_copy_pod_reference = copy_pointer deep_copy_into_pod_reference

unfoldable pub deep_copy_deployment_reference : Pointer → Command Pointer
deep_copy_deployment_reference = copy_pointer deep_copy_into_deployment_reference

unfoldable pub deep_copy_delete : Pointer → Command Pointer
deep_copy_delete = copy_pointer deep_copy_into_delete

unfoldable pub deep_copy_patch : Pointer → Command Pointer
deep_copy_patch = copy_pointer deep_copy_into_patch

unfoldable pub deep_copy_restart : Pointer → Command Pointer
deep_copy_restart = copy_pointer deep_copy_into_restart

unfoldable pub deep_copy_debug : Pointer → Command Pointer
deep_copy_debug = copy_pointer deep_copy_into_debug

unfoldable pub deep_copy_action : Pointer → Command Pointer
deep_copy_action = copy_pointer deep_copy_into_action

unfoldable pub deep_copy_policy : Pointer → Command Pointer
deep_copy_policy = copy_pointer deep_copy_into_policy

-- What a `runtime.Object` holds: nil, or a pointer with its type.
pub data RuntimeObject : Type 0 where
  nil : RuntimeObject
  counter_measure : ℕ → RuntimeObject
  counter_measure_list : ℕ → RuntimeObject
  prometheus : ℕ → RuntimeObject
  prometheus_list : ℕ → RuntimeObject

-- `if c := in.DeepCopy(); c != nil { return c }; return nil`.
abbrev pub as_object : (ℕ → RuntimeObject) → Pointer → RuntimeObject
as_object typed none = nil
as_object typed (some p) = typed p

module _ (copies : ForeignCopies) where
  unfoldable pub deep_copy_on_event : Pointer → Command Pointer
  deep_copy_on_event = copy_pointer (deep_copy_into_on_event copies)

  unfoldable pub deep_copy_spec : Pointer → Command Pointer
  deep_copy_spec = copy_pointer (deep_copy_into_spec copies)

  unfoldable pub deep_copy_status : Pointer → Command Pointer
  deep_copy_status = copy_pointer (deep_copy_into_status copies)

  unfoldable pub deep_copy_counter_measure : Pointer → Command Pointer
  deep_copy_counter_measure = copy_pointer (deep_copy_into_counter_measure copies)

  unfoldable pub deep_copy_counter_measure_list : Pointer → Command Pointer
  deep_copy_counter_measure_list = copy_pointer (deep_copy_into_counter_measure_list copies)

  unfoldable pub counter_measure_object : Pointer → Command RuntimeObject
  unfolding deep_copy_counter_measure
  counter_measure_object p = do
    c ← deep_copy_counter_measure p
    pure (as_object RuntimeObject.counter_measure c)

  unfoldable pub counter_measure_list_object : Pointer → Command RuntimeObject
  unfolding deep_copy_counter_measure_list
  counter_measure_list_object p = do
    c ← deep_copy_counter_measure_list p
    pure (as_object RuntimeObject.counter_measure_list c)
