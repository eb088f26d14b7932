-- ===== src/SourceController.antt =====
-- controllers/eventsource/prometheus_controller.go: the reconciliation of sources. A result is the
-- delay of the next reconciliation, or an error. The services and secrets of the API server and
-- `api.NewClient` are arguments, and so is what a call of the reconciler's logger comes to, which `main.go`
-- leaves unset.
pub mod Reconciling
use k8s_countermeasures.Prelude.{
  Text, codes, is_empty, if◌then◌else◌, Option, none, some, List, [], ◌++◌, Bool, true, false, ◌*◌,
}
use k8s_countermeasures.Prelude.Int.{ℤ, pos}
use k8s_countermeasures.Prelude.Decimals.{decimal_int}
use k8s_countermeasures.Manager.{NamespacedName, ObjectMeta, to_key}
use k8s_countermeasures.Outcome.{Outcome, Error, ok, err, panic, ◌>>=◌, ◌>>◌}
use k8s_countermeasures.Api.Types.{Condition}
use k8s_countermeasures.Sources.{
  Prometheus, ServiceReference, AuthSpec, get_namespaced_name, secret_namespace,
}
use k8s_countermeasures.Producer.Prometheus.{PrometheusConfig}
use k8s_countermeasures.Producer.Client.{ClientConfig, new_prometheus_client}
use k8s_countermeasures.Producer.Registered.{KeyedEventProducer, Manager, add, remove, exists}
use k8s_countermeasures.Actions.Perform.{is_not_found}
use k8s_countermeasures.Actions.Runner.{Retry}
use k8s_countermeasures.Reconciler.{
  ServicePort, find_named_port, Secret, get_secret, handle_outcome,
}
use k8s_countermeasures.Status.{
  Resources, Served, is_conflict, name_of, true_condition, initializing_condition, finish, rewrite,
  rewrite_error, rewrite_pointer,
}

abbrev pub type_polling : Text
type_polling = codes "Polling"

abbrev pub requeue_delay : ℤ
requeue_delay = pos (30 * 1000000000)

unfoldable pub service_port : ServiceReference → List ServicePort → ℤ
service_port svc ports = elim (find_named_port ports svc.target_port) [
  | some p ↦ p.port
  | none ↦ svc.port
]

unfoldable pub address_of : ServiceReference → List ServicePort → Text
unfolding service_port
address_of svc ports =
    let scheme = if svc.use_tls then codes "https" else codes "http" in
    scheme
    ++ (codes "://"
        ++ (svc.name
            ++ (codes "."
                ++ (svc.namespace ++ (codes ".svc:" ++ decimal_int (service_port svc ports))))))

-- A producer of a source: its configuration, and the client that Go keeps in it.
abbrev pub EventProducer : Type 0 → Type 0
EventProducer C = PrometheusConfig × C

unfoldable pub new_event_producer :
    {C : Type 0} → PrometheusConfig → C → KeyedEventProducer (EventProducer C)
new_event_producer config client = record { key = config.key; producer = (config, client) }

unfoldable pub config_of : Prometheus → PrometheusConfig
unfolding to_key
config_of p = record {
  poll_interval = p.spec.polling_interval;
  include_pending = p.spec.include_pending;
  key = to_key p.object_meta;
}

module _ {C W : Type 0} (get_service : NamespacedName → W → Outcome (List ServicePort))
    (get_stored : NamespacedName → W → Outcome Secret) (log_error : Outcome (Unit {0}))
    (new_client : ClientConfig → Outcome C) where
  unfoldable pub logged : Outcome Secret → Outcome Secret
  logged (err e) = log_error >> err e
  logged (ok secret) = ok secret
  logged panic = panic

  -- The user and the password; both are empty with no authentication.
  unfoldable pub credentials : Prometheus → Option AuthSpec → W → Outcome (Text × Text)
  unfolding secret_namespace get_secret logged
  credentials p none w = ok ([], [])
  credentials p (some auth) w = do
    let ref = auth.secret_reference
    secret ←
        logged (
          get_secret
            (get_stored (record { namespace = secret_namespace p ref; name = ref.name }) w))
    ok (secret.username, secret.password)

  unfoldable pub create_p8s_client : Prometheus → W → Outcome C
  unfolding credentials get_namespaced_name address_of new_prometheus_client
  create_p8s_client p w = do
    ports ← get_service (get_namespaced_name p.spec.service) w
    user ← credentials p p.spec.auth w
    new_prometheus_client new_client (address_of p.spec.service ports) user.0 user.1

module _ (r : Resources Prometheus) where
  open r use {World, get, set_status_condition, condition_time}

  unfoldable pub with_status : Condition → Text → Prometheus → Prometheus
  with_status condition state p = record p {
    status = record {
      state = state;
      conditions = set_status_condition p.status.conditions condition;
    };
  }

  unfoldable pub write_success : ObjectMeta → World → Outcome (Unit {0}) × World
  unfolding with_status
  write_success meta =
      rewrite r
        (λ p w.
          with_status (true_condition type_polling meta [] (condition_time w)) (codes "Polling") p)
        (name_of meta)

  unfoldable pub write_error :
      ObjectMeta → Error × Served World → Outcome (Unit {0}) × (Error × Served World)
  unfolding with_status
  write_error meta =
      rewrite_error r
        (λ message p w.
          with_status (true_condition type_polling meta message (condition_time w)) (codes "Error")
            p)
        (name_of meta)

  unfoldable pub write_initializing : Prometheus × World → Outcome (Unit {0}) × (Prometheus × World)
  unfolding with_status
  write_initializing =
      rewrite_pointer r (λ p. name_of p.object_meta)
        (λ p w. with_status (initializing_condition type_polling p.object_meta) (codes "Unknown") p)

  -- Nothing calls it.
  unfoldable pub mark_initializing :
      Retry (Prometheus × World) → Prometheus → World → Outcome (Unit {0}) × (Prometheus × World)
  unfolding write_initializing
  mark_initializing retry_initializing p w =
      if is_empty p.status.conditions
      then retry_initializing.on_error is_conflict write_initializing (p, w)
      else (ok tt, (p, w))

  module _ (retry_success : Retry World) (retry_error : Retry (Error × Served World)) where
    unfoldable pub handle_success : ObjectMeta → Served World → Outcome ℤ × Served World
    unfolding write_success
    handle_success meta s =
        let (o, w) = retry_success.on_error is_conflict (write_success meta) s.world in
        (finish o (pos 0), record { world = w; recorded = s.recorded })

    unfoldable pub handle_error_and_requeue :
        ObjectMeta → Error → ℤ → Served World → Outcome ℤ × Served World
    unfolding write_error
    handle_error_and_requeue meta e requeue_after s =
        let (o, (_, s')) = retry_error.on_error is_conflict (write_error meta) (e, s) in
        (finish o requeue_after, s')

    module _ {C : Type 0} (get_service : NamespacedName → World → Outcome (List ServicePort))
        (get_stored : NamespacedName → World → Outcome Secret) (log_error : Outcome (Unit {0}))
        (new_client : ClientConfig → Outcome C) where
      abbrev Result : Type 0
      Result = Outcome ℤ × (Manager (EventProducer C) × Served World)

      abbrev with_manager : Manager (EventProducer C) → Outcome ℤ × Served World → Result
      with_manager m (o, s) = (o, (m, s))

      -- The branch that installs the source: `Add` returns no error.
      unfoldable pub install : Prometheus → Manager (EventProducer C) → Served World → Result
      unfolding create_p8s_client config_of new_event_producer handle_error_and_requeue
          handle_success
      install p m s =
          elim (create_p8s_client get_service get_stored log_error new_client p s.world) [
            | err e ↦ with_manager m (handle_error_and_requeue p.object_meta e requeue_delay s)
            | panic ↦ (panic, (m, s))
            | ok client ↦
                with_manager (add m (new_event_producer (config_of p) client))
                  (handle_outcome handle_error_and_requeue handle_success p.object_meta none s)
          ]

      unfoldable pub reconcile : NamespacedName → Manager (EventProducer C) → Served World → Result
      unfolding install
      reconcile name m s = elim (get name s.world) [
        | err e ↦ if is_not_found e then (ok (pos 0), (remove m name, s)) else (err e, (m, s))
        | panic ↦ (panic, (m, s))
        | ok p ↦
            if exists m p.object_meta
            then with_manager m (handle_success p.object_meta s)
            else install p m s
      ]
