-- ===== src/Api/Types.antt =====
-- apis/countermeasure/v1alpha1/countermeasure_types.go: the specification of a countermeasure. A
-- pointer that may be nil is an option. The type metadata and the list type are left out.
use k8s_countermeasures.Prelude.{Text, List, Option, Bool}
use k8s_countermeasures.Prelude.Int.{ℤ}
use k8s_countermeasures.Manager.{ObjectMeta}

pub record ObjectReference : Type 0 where
  pub namespace : Text
  pub name : Text
  pub kind : Text
  pub api_version : Text

pub record PodReference : Type 0 where
  pub namespace : Text
  pub name : Text
  pub container : Text

pub record DeploymentReference : Type 0 where
  pub namespace : Text
  pub name : Text

-- A duration in nanoseconds, which may be negative.
pub record SuppressionPolicySpec : Type 0 where
  pub duration : Option ℤ

-- The program only hands a `metav1.LabelSelector` on: it is kept in its serialised form.
abbrev pub LabelSelector : Type 0
LabelSelector = Text

pub record OnEventSpec : Type 0 where
  pub event_name : Text
  pub source_selector : Option LabelSelector
  pub suppression_policy : Option SuppressionPolicySpec

pub record DebugSpec : Type 0 where
  pub name : Text
  pub command : List Text
  pub args : List Text
  pub image : Text
  pub pod_ref : PodReference
  pub std_in : Bool
  pub tty : Bool

pub record PatchSpec : Type 0 where
  pub target_object_ref : ObjectReference
  pub patch_type : Text
  pub yaml_template : Text

pub record DeleteSpec : Type 0 where
  pub target_object_ref : ObjectReference

pub record RestartSpec : Type 0 where
  pub deployment_ref : DeploymentReference

-- The pointers stand in the order of the Go struct, in which reflection visits them.
pub record ActionSpec : Type 0 where
  pub name : Text
  pub retry_enabled : Bool
  pub delete : Option DeleteSpec
  pub patch : Option PatchSpec
  pub debug : Option DebugSpec
  pub restart : Option RestartSpec

pub record CounterMeasureSpec : Type 0 where
  pub on_event : OnEventSpec
  pub actions : List ActionSpec
  pub dry_run : Bool

-- `metav1.Condition`.
pub record Condition : Type 0 where
  pub kind : Text
  pub status : Text
  pub observed_generation : ℤ
  pub last_transition_time : Option ℤ
  pub reason : Text
  pub message : Text

pub record CounterMeasureStatus : Type 0 where
  pub last_status : Text
  pub last_status_change_time : Option ℤ
  pub conditions : List Condition

pub record CounterMeasure : Type 0 where
  pub object_meta : ObjectMeta
  pub spec : CounterMeasureSpec
  pub status : CounterMeasureStatus
