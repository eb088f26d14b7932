-- ===== src/Memory/Reading.antt =====
-- What the structs in memory stand for, as values of Api.Types and Sources: the specification of the
-- deep copies. Each reader follows every pointer of its struct.
use k8s_countermeasures.Prelude.{Text, List}
use k8s_countermeasures.Prelude.Int.{ℤ}
use k8s_countermeasures.Manager.{ObjectMeta}
use k8s_countermeasures.Api.Types.{
  ActionSpec, Condition, CounterMeasure, CounterMeasureSpec, CounterMeasureStatus, DebugSpec,
  DeleteSpec, LabelSelector, OnEventSpec, PatchSpec, RestartSpec, SuppressionPolicySpec,
}
use k8s_countermeasures.Sources.{
  AuthSpec, Prometheus, PrometheusSpec, PrometheusStatus, ServiceReference,
}
use k8s_countermeasures.Memory.Objects.{
  ActionObject, CounterMeasureListObject, CounterMeasureObject, DebugObject, Foreign, OnEventObject,
  PolicyObject, PrometheusListObject, PrometheusObject, PrometheusSpecObject,
  PrometheusStatusObject, ServiceObject, SpecObject, StatusObject, TypeMeta,
}
use k8s_countermeasures.Memory.Stored.{
  foreign-Storable, string-Storable, strings-Storable, duration-Storable, delete-Storable,
  patch-Storable, restart-Storable, debug-Storable, policy-Storable, actions-Storable,
  conditions-Storable, counter_measures-Storable,
}
use k8s_countermeasures.Memory.StoredSources.{auth-Storable, prometheuses-Storable}
use k8s_countermeasures.Memory.Readers.{Reader, give, ◌>>=◌, read_pointer, read_slice}

-- A resource with its type metadata, and a list of such.
pub record Typed (V : Type 0) : Type 0 where
  pub type_meta : TypeMeta
  pub value : V

pub record ListOf (V : Type 0) : Type 0 where
  pub type_meta : TypeMeta
  pub list_meta : Text
  pub items : List (Typed V)

-- What the structs of k8s.io/apimachinery stand for. The metadata of a list is kept in its
-- serialised form, as a label selector is.
pub record ForeignReads : Type 0 where
  pub object_meta : Foreign → Reader ObjectMeta
  pub list_meta : Foreign → Reader Text
  pub label_selector : Foreign → Reader LabelSelector
  pub time : Foreign → Reader ℤ
  pub condition : Foreign → Reader Condition

unfoldable pub read_debug : DebugObject → Reader DebugSpec
read_debug x = do
  command ← read_slice {X = Text} give x.command
  args ← read_slice {X = Text} give x.args
  give (record {
    name = x.name;
    command = command;
    args = args;
    image = x.image;
    pod_ref = x.pod_ref;
    std_in = x.std_in;
    tty = x.tty;
  })

unfoldable pub read_action : ActionObject → Reader ActionSpec
read_action x = do
  delete ← read_pointer {X = DeleteSpec} give x.delete
  patch ← read_pointer {X = PatchSpec} give x.patch
  debug ← read_pointer read_debug x.debug
  restart ← read_pointer {X = RestartSpec} give x.restart
  give (record {
    name = x.name;
    retry_enabled = x.retry_enabled;
    delete = delete;
    patch = patch;
    debug = debug;
    restart = restart;
  })

unfoldable pub read_policy : PolicyObject → Reader SuppressionPolicySpec
read_policy x = do
  duration ← read_pointer {X = ℤ} give x.duration
  give (record { duration = duration })

unfoldable pub read_service : ServiceObject → Reader ServiceReference
read_service x = do
  path ← read_pointer {X = Text} give x.path
  give (record {
    namespace = x.namespace;
    name = x.name;
    path = path;
    port = x.port;
    target_port = x.target_port;
    use_tls = x.use_tls;
  })

unfoldable pub read_prometheus_spec : PrometheusSpecObject → Reader PrometheusSpec
read_prometheus_spec x = do
  service ← read_service x.service
  auth ← read_pointer {X = AuthSpec} give x.auth
  give (record {
    service = service;
    auth = auth;
    polling_interval = x.polling_interval;
    include_pending = x.include_pending;
  })

module _ (reads : ForeignReads) where
  unfoldable pub read_on_event : OnEventObject → Reader OnEventSpec
  read_on_event x = do
    selector ← read_pointer reads.label_selector x.source_selector
    policy ← read_pointer read_policy x.suppression_policy
    give (record {
      event_name = x.event_name;
      source_selector = selector;
      suppression_policy = policy;
    })

  unfoldable pub read_spec : SpecObject → Reader CounterMeasureSpec
  read_spec x = do
    on_event ← read_on_event x.on_event
    actions ← read_slice read_action x.actions
    give (record { on_event = on_event; actions = actions; dry_run = x.dry_run })

  unfoldable pub read_status : StatusObject → Reader CounterMeasureStatus
  read_status x = do
    time ← read_pointer reads.time x.last_status_change_time
    conditions ← read_slice reads.condition x.conditions
    give (record {
      last_status = x.last_status;
      last_status_change_time = time;
      conditions = conditions;
    })

  unfoldable pub read_counter_measure : CounterMeasureObject → Reader (Typed CounterMeasure)
  read_counter_measure x = do
    object_meta ← reads.object_meta x.object_meta
    spec ← read_spec x.spec
    status ← read_status x.status
    give (record {
      type_meta = x.type_meta;
      value = record { object_meta = object_meta; spec = spec; status = status };
    })

  unfoldable pub read_counter_measure_list :
      CounterMeasureListObject → Reader (ListOf CounterMeasure)
  read_counter_measure_list x = do
    list_meta ← reads.list_meta x.list_meta
    items ← read_slice read_counter_measure x.items
    give (record { type_meta = x.type_meta; list_meta = list_meta; items = items })

  unfoldable pub read_prometheus_status : PrometheusStatusObject → Reader PrometheusStatus
  read_prometheus_status x = do
    conditions ← read_slice reads.condition x.conditions
    give (record { state = x.state; conditions = conditions })

  unfoldable pub read_prometheus : PrometheusObject → Reader (Typed Prometheus)
  read_prometheus x = do
    object_meta ← reads.object_meta x.object_meta
    spec ← read_prometheus_spec x.spec
    status ← read_prometheus_status x.status
    give (record {
      type_meta = x.type_meta;
      value = record { object_meta = object_meta; spec = spec; status = status };
    })

  unfoldable pub read_prometheus_list : PrometheusListObject → Reader (ListOf Prometheus)
  read_prometheus_list x = do
    list_meta ← reads.list_meta x.list_meta
    items ← read_slice read_prometheus x.items
    give (record { type_meta = x.type_meta; list_meta = list_meta; items = items })
