-- ===== src/Memory/Objects.antt =====
-- apis/countermeasure/v1alpha1/countermeasure_types.go and
-- apis/eventsource/v1alpha1/prometheus_types.go: the structs as they lie in memory, with their pointers
-- and slices. A struct with none of these is the one of Api.Types or Sources. A slice is a reference to
-- the array of all its elements.
use k8s_countermeasures.Prelude.{ℕ, Text, List, Option, Bool}
use k8s_countermeasures.Prelude.Int.{ℤ}
use k8s_countermeasures.Api.Types.{
  DeleteSpec, DeploymentReference, ObjectReference, PatchSpec, PodReference, RestartSpec,
}
use k8s_countermeasures.Sources.{AuthSpec}

-- An address, or nil.
abbrev pub Pointer : Type 0
Pointer = Option ℕ

abbrev pub Slice : Type 0
Slice = Option ℕ

-- A struct of the libraries (`metav1.ObjectMeta`, `metav1.Condition` and others): what it holds
-- itself, and what it refers to. Only the operations of the library know more of it.
pub record Foreign : Type 0 where
  pub words : Text
  pub references : List ℕ

-- `metav1.TypeMeta`.
pub record TypeMeta : Type 0 where
  pub kind : Text
  pub api_version : Text

pub record PolicyObject : Type 0 where
  pub duration : Pointer

pub record OnEventObject : Type 0 where
  pub event_name : Text
  pub source_selector : Pointer
  pub suppression_policy : Pointer

pub record DebugObject : Type 0 where
  pub name : Text
  pub command : Slice
  pub args : Slice
  pub image : Text
  pub pod_ref : PodReference
  pub std_in : Bool
  pub tty : Bool

pub record ActionObject : Type 0 where
  pub name : Text
  pub retry_enabled : Bool
  pub delete : Pointer
  pub patch : Pointer
  pub debug : Pointer
  pub restart : Pointer

pub record SpecObject : Type 0 where
  pub on_event : OnEventObject
  pub actions : Slice
  pub dry_run : Bool

pub record StatusObject : Type 0 where
  pub last_status : Text
  pub last_status_change_time : Pointer
  pub conditions : Slice

pub record CounterMeasureObject : Type 0 where
  pub type_meta : TypeMeta
  pub object_meta : Foreign
  pub spec : SpecObject
  pub status : StatusObject

pub record CounterMeasureListObject : Type 0 where
  pub type_meta : TypeMeta
  pub list_meta : Foreign
  pub items : Slice

pub record ServiceObject : Type 0 where
  pub namespace : Text
  pub name : Text
  pub path : Pointer
  pub port : ℤ
  pub target_port : Text
  pub use_tls : Bool

pub record PrometheusSpecObject : Type 0 where
  pub service : ServiceObject
  pub auth : Pointer
  pub polling_interval : ℤ
  pub include_pending : Bool

pub record PrometheusStatusObject : Type 0 where
  pub state : Text
  pub conditions : Slice

pub record PrometheusObject : Type 0 where
  pub type_meta : TypeMeta
  pub object_meta : Foreign
  pub spec : PrometheusSpecObject
  pub status : PrometheusStatusObject

pub record PrometheusListObject : Type 0 where
  pub type_meta : TypeMeta
  pub list_meta : Foreign
  pub items : Slice

-- What an address can hold: one constructor for each type that is pointed to.
pub data Cell : Type 0 where
  foreign : Foreign → Cell
  string : Text → Cell
  strings : List Text → Cell
  duration : ℤ → Cell
  object_reference : ObjectReference → Cell
  pod_reference : PodReference → Cell
  deployment_reference : DeploymentReference → Cell
  delete : DeleteSpec → Cell
  patch : PatchSpec → Cell
  restart : RestartSpec → Cell
  debug : DebugObject → Cell
  policy : PolicyObject → Cell
  on_event : OnEventObject → Cell
  action : ActionObject → Cell
  actions : List ActionObject → Cell
  conditions : List Foreign → Cell
  spec : SpecObject → Cell
  status : StatusObject → Cell
  counter_measure : CounterMeasureObject → Cell
  counter_measures : List CounterMeasureObject → Cell
  counter_measure_list : CounterMeasureListObject → Cell
  auth : AuthSpec → Cell
  service : ServiceObject → Cell
  prometheus_spec : PrometheusSpecObject → Cell
  prometheus_status : PrometheusStatusObject → Cell
  prometheus : PrometheusObject → Cell
  prometheuses : List PrometheusObject → Cell
  prometheus_list : PrometheusListObject → Cell
