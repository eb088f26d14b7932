-- ===== src/Tests/MemoryValues.antt =====
-- What the resources of MemoryFixtures stand for.
use k8s_countermeasures.Prelude.{codes, [], ◌∷◌, none, some, false}
use k8s_countermeasures.Prelude.Int.{pos}
use k8s_countermeasures.Api.Types.{CounterMeasure}
use k8s_countermeasures.Sources.{Prometheus}
use k8s_countermeasures.Memory.Stored.{
  foreign-Storable, string-Storable, counter_measure-Storable, counter_measure_list-Storable,
}
use k8s_countermeasures.Memory.StoredSources.{prometheus-Storable, prometheus_list-Storable}
use k8s_countermeasures.Memory.Reading.{Typed, ListOf}
use k8s_countermeasures.Tests.MemoryFixtures.{type_meta, meta_of, condition_of, foreign, debug}

abbrev pub counter_measure_value : Typed CounterMeasure
counter_measure_value = record {
  type_meta = type_meta (codes "CounterMeasure");
  value = record {
    object_meta = meta_of (foreign (codes "cm") []);
    spec = record {
      on_event = record {
        event_name = codes "high";
        source_selector = some (codes "app=web");
        suppression_policy = some (record { duration = some (pos 60) });
      };
      actions =
          record {
            name = codes "look";
            retry_enabled = false;
            delete = none;
            patch = none;
            debug = some (record {
              name = codes "debug";
              command = codes "sh" ∷ codes "-i" ∷ [];
              args = [];
              image = codes "busybox";
              pod_ref = debug.pod_ref;
              std_in = false;
              tty = false;
            });
            restart = none;
          }
          ∷ [];
      dry_run = false;
    };
    status = record {
      last_status = codes "Monitoring";
      last_status_change_time = some (pos 5);
      conditions = condition_of (foreign (codes "Monitoring") []) ∷ [];
    };
  };
}

abbrev pub counter_measure_list_value : ListOf CounterMeasure
counter_measure_list_value = record {
  type_meta = type_meta (codes "CounterMeasureList");
  list_meta = codes "7";
  items = counter_measure_value ∷ counter_measure_value ∷ [];
}

abbrev pub prometheus_value : Typed Prometheus
prometheus_value = record {
  type_meta = type_meta (codes "Prometheus");
  value = record {
    object_meta = meta_of (foreign (codes "source") []);
    spec = record {
      service = record {
        namespace = codes "ns";
        name = codes "web";
        path = some (codes "app=web");
        port = pos 80;
        target_port = [];
        use_tls = false;
      };
      auth = some (record { secret_reference = record { namespace = []; name = codes "secret" } });
      polling_interval = pos 15;
      include_pending = false;
    };
    status = record {
      state = codes "Polling";
      conditions = condition_of (foreign (codes "Monitoring") []) ∷ [];
    };
  };
}

abbrev pub prometheus_list_value : ListOf Prometheus
prometheus_list_value = record {
  type_meta = type_meta (codes "PrometheusList");
  list_meta = codes "8";
  items = prometheus_value ∷ [];
}
