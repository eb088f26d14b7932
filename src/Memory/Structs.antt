-- ===== src/Memory/Structs.antt =====
-- The deep copies of the structs of both zz_generated.deepcopy.go are separate, if those of the
-- structs of the libraries are.
use k8s_countermeasures.Prelude.{Text, refl, arith}
use k8s_countermeasures.Prelude.Int.{ℤ}
use k8s_countermeasures.Api.Types.{DeleteSpec, PatchSpec, RestartSpec}
use k8s_countermeasures.Sources.{AuthSpec}
use k8s_countermeasures.Memory.Stored.{
  foreign-Storable, string-Storable, strings-Storable, duration-Storable, delete-Storable,
  patch-Storable, restart-Storable, debug-Storable, policy-Storable, actions-Storable,
  conditions-Storable, counter_measures-Storable,
}
use k8s_countermeasures.Memory.StoredSources.{auth-Storable, prometheuses-Storable}
use k8s_countermeasures.Memory.Reading.{
  ForeignReads, read_debug, read_action, read_policy, read_service, read_prometheus_spec,
  read_on_event, read_spec, read_status, read_counter_measure, read_counter_measure_list,
  read_prometheus_status, read_prometheus, read_prometheus_list,
}
use k8s_countermeasures.Memory.CounterMeasures.{
  ForeignCopies, deep_copy_into_debug, deep_copy_into_action, deep_copy_into_policy,
  deep_copy_into_on_event, deep_copy_into_spec, deep_copy_into_status,
  deep_copy_into_counter_measure, deep_copy_into_counter_measure_list,
}
use k8s_countermeasures.Memory.Sources.{
  deep_copy_into_service, deep_copy_into_prometheus_spec, deep_copy_into_prometheus_status,
  deep_copy_into_prometheus, deep_copy_into_prometheus_list,
}
use k8s_countermeasures.Memory.Separation.{Copies, Copies-pure}
use k8s_countermeasures.Memory.Separation.Forms.{
  Copies-pointer, Copies-slice, Copies-both, Copies-record,
}

pub Copies-debug : Copies read_debug deep_copy_into_debug
unfolding read_debug deep_copy_into_debug
Copies-debug =
    Copies-record (λ x. (x.command, x.args)) (λ x t. record x { command = t.0; args = t.1 })
      (λ x w. record {
        name = x.name;
        command = w.0;
        args = w.1;
        image = x.image;
        pod_ref = x.pod_ref;
        std_in = x.std_in;
        tty = x.tty;
      })
      (Copies-both (Copies-slice {X = Text} Copies-pure) (Copies-slice {X = Text} Copies-pure))
      (λ x t. refl) (λ x t w. refl) (λ x h. ground arith) (λ x h. ground arith)

pub Copies-action : Copies read_action deep_copy_into_action
unfolding read_action deep_copy_into_action
Copies-action =
    Copies-record (λ x. (x.delete, (x.patch, (x.debug, x.restart))))
      (λ x t. record x { delete = t.0; patch = t.1.0; debug = t.1.1.0; restart = t.1.1.1 })
      (λ x w. record {
        name = x.name;
        retry_enabled = x.retry_enabled;
        delete = w.0;
        patch = w.1.0;
        debug = w.1.1.0;
        restart = w.1.1.1;
      })
      (Copies-both (Copies-pointer {X = DeleteSpec} Copies-pure) (
        Copies-both (Copies-pointer {X = PatchSpec} Copies-pure) (
          Copies-both (Copies-pointer Copies-debug)
            (Copies-pointer {X = RestartSpec} Copies-pure))))
      (λ x t. refl) (λ x t w. refl) (λ x h. ground arith) (λ x h. ground arith)

pub Copies-policy : Copies read_policy deep_copy_into_policy
unfolding read_policy deep_copy_into_policy
Copies-policy =
    Copies-record (λ x. x.duration) (λ x t. record x { duration = t })
      (λ x w. record { duration = w }) (Copies-pointer {X = ℤ} Copies-pure) (λ x t. refl)
      (λ x t w. refl) (λ x h. ground arith) (λ x h. ground arith)

pub Copies-service : Copies read_service deep_copy_into_service
unfolding read_service deep_copy_into_service
Copies-service =
    Copies-record (λ x. x.path) (λ x t. record x { path = t })
      (λ x w. record {
        namespace = x.namespace;
        name = x.name;
        path = w;
        port = x.port;
        target_port = x.target_port;
        use_tls = x.use_tls;
      })
      (Copies-pointer {X = Text} Copies-pure) (λ x t. refl) (λ x t w. refl) (λ x h. ground arith)
      (λ x h. ground arith)

pub Copies-prometheus_spec : Copies read_prometheus_spec deep_copy_into_prometheus_spec
unfolding read_prometheus_spec deep_copy_into_prometheus_spec
Copies-prometheus_spec =
    Copies-record (λ x. (x.service, x.auth)) (λ x t. record x { service = t.0; auth = t.1 })
      (λ x w. record {
        service = w.0;
        auth = w.1;
        polling_interval = x.polling_interval;
        include_pending = x.include_pending;
      })
      (Copies-both Copies-service (Copies-pointer {X = AuthSpec} Copies-pure)) (λ x t. refl)
      (λ x t w. refl) (λ x h. ground arith) (λ x h. ground arith)

-- What is asked of the structs of the libraries: their documented `DeepCopyInto`.
pub record ForeignLaws (reads : ForeignReads) (copies : ForeignCopies) : Type 0 where
  pub object_meta : Copies reads.object_meta copies.object_meta
  pub list_meta : Copies reads.list_meta copies.list_meta
  pub label_selector : Copies reads.label_selector copies.label_selector
  pub time : Copies reads.time copies.time
  pub condition : Copies reads.condition copies.condition

module _ {reads : ForeignReads} {copies : ForeignCopies} (laws : ForeignLaws reads copies) where
  pub Copies-on_event : Copies (read_on_event reads) (deep_copy_into_on_event copies)
  unfolding read_on_event deep_copy_into_on_event
  Copies-on_event =
      Copies-record (λ x. (x.source_selector, x.suppression_policy))
        (λ x t. record x { source_selector = t.0; suppression_policy = t.1 })
        (λ x w. record {
          event_name = x.event_name;
          source_selector = w.0;
          suppression_policy = w.1;
        })
        (Copies-both (Copies-pointer laws.label_selector) (Copies-pointer Copies-policy))
        (λ x t. refl) (λ x t w. refl) (λ x h. ground arith) (λ x h. ground arith)

  pub Copies-spec : Copies (read_spec reads) (deep_copy_into_spec copies)
  unfolding read_spec deep_copy_into_spec
  Copies-spec =
      Copies-record (λ x. (x.on_event, x.actions))
        (λ x t. record x { on_event = t.0; actions = t.1 })
        (λ x w. record { on_event = w.0; actions = w.1; dry_run = x.dry_run })
        (Copies-both Copies-on_event (Copies-slice Copies-action)) (λ x t. refl) (λ x t w. refl)
        (λ x h. ground arith) (λ x h. ground arith)

  pub Copies-status : Copies (read_status reads) (deep_copy_into_status copies)
  unfolding read_status deep_copy_into_status
  Copies-status =
      Copies-record (λ x. (x.last_status_change_time, x.conditions))
        (λ x t. record x { last_status_change_time = t.0; conditions = t.1 })
        (λ x w. record {
          last_status = x.last_status;
          last_status_change_time = w.0;
          conditions = w.1;
        })
        (Copies-both (Copies-pointer laws.time) (Copies-slice laws.condition)) (λ x t. refl)
        (λ x t w. refl) (λ x h. ground arith) (λ x h. ground arith)

  pub Copies-counter_measure :
      Copies (read_counter_measure reads) (deep_copy_into_counter_measure copies)
  unfolding read_counter_measure deep_copy_into_counter_measure
  Copies-counter_measure =
      Copies-record (λ x. (x.object_meta, (x.spec, x.status)))
        (λ x t. record x { object_meta = t.0; spec = t.1.0; status = t.1.1 })
        (λ x w. record {
          type_meta = x.type_meta;
          value = record { object_meta = w.0; spec = w.1.0; status = w.1.1 };
        })
        (Copies-both laws.object_meta (Copies-both Copies-spec Copies-status)) (λ x t. refl)
        (λ x t w. refl) (λ x h. ground arith) (λ x h. ground arith)

  pub Copies-counter_measure_list :
      Copies (read_counter_measure_list reads) (deep_copy_into_counter_measure_list copies)
  unfolding read_counter_measure_list deep_copy_into_counter_measure_list
  Copies-counter_measure_list =
      Copies-record (λ x. (x.list_meta, x.items)) (λ x t. record x { list_meta = t.0; items = t.1 })
        (λ x w. record { type_meta = x.type_meta; list_meta = w.0; items = w.1 })
        (Copies-both laws.list_meta (Copies-slice Copies-counter_measure)) (λ x t. refl)
        (λ x t w. refl) (λ x h. ground arith) (λ x h. ground arith)

  pub Copies-prometheus_status :
      Copies (read_prometheus_status reads) (deep_copy_into_prometheus_status copies)
  unfolding read_prometheus_status deep_copy_into_prometheus_status
  Copies-prometheus_status =
      Copies-record (λ x. x.conditions) (λ x t. record x { conditions = t })
        (λ x w. record { state = x.state; conditions = w }) (Copies-slice laws.condition)
        (λ x t. refl) (λ x t w. refl) (λ x h. ground arith) (λ x h. ground arith)

  pub Copies-prometheus : Copies (read_prometheus reads) (deep_copy_into_prometheus copies)
  unfolding read_prometheus deep_copy_into_prometheus
  Copies-prometheus =
      Copies-record (λ x. (x.object_meta, (x.spec, x.status)))
        (λ x t. record x { object_meta = t.0; spec = t.1.0; status = t.1.1 })
        (λ x w. record {
          type_meta = x.type_meta;
          value = record { object_meta = w.0; spec = w.1.0; status = w.1.1 };
        })
        (Copies-both laws.object_meta (Copies-both Copies-prometheus_spec Copies-prometheus_status))
        (λ x t. refl) (λ x t w. refl) (λ x h. ground arith) (λ x h. ground arith)

  pub Copies-prometheus_list :
      Copies (read_prometheus_list reads) (deep_copy_into_prometheus_list copies)
  unfolding read_prometheus_list deep_copy_into_prometheus_list
  Copies-prometheus_list =
      Copies-record (λ x. (x.list_meta, x.items)) (λ x t. record x { list_meta = t.0; items = t.1 })
        (λ x w. record { type_meta = x.type_meta; list_meta = w.0; items = w.1 })
        (Copies-both laws.list_meta (Copies-slice Copies-prometheus)) (λ x t. refl) (λ x t w. refl)
        (λ x h. ground arith) (λ x h. ground arith)
