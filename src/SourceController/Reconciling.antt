-- ===== src/SourceController/Reconciling.antt =====
-- controllers/eventsource/prometheus_controller.go: what a reconciliation does to the producers, and
-- when there is another.
use k8s_countermeasures.Prelude.{
  ◌*◌, List, true, false, ◌≡◌, refl, sym, subst, ◌⊎◌, inl, inr, arith, Bool-cases,
}
use k8s_countermeasures.Prelude.Int.{ℤ, pos}
use k8s_countermeasures.Manager.{NamespacedName, ObjectMeta, object_key_eq}
use k8s_countermeasures.Outcome.{Outcome, Error, ok, err, panic, Outcome-cases}
use k8s_countermeasures.Sources.{Prometheus}
use k8s_countermeasures.Producer.Client.{ClientConfig}
use k8s_countermeasures.Producer.Registered.{KeyedEventProducer, Manager, add, remove, exists}
use k8s_countermeasures.Actions.Perform.{is_not_found}
use k8s_countermeasures.Actions.Runner.{Retry}
use k8s_countermeasures.Reconciler.{ServicePort, Secret}
use k8s_countermeasures.Status.{Resources, Served, is_conflict, finish}
use k8s_countermeasures.SourceController.{
  EventProducer, new_event_producer, requeue_delay, handle_error_and_requeue, create_p8s_client,
  config_of, install, reconcile, write_error,
}

-- The producer that is made for a source.
abbrev pub producer_of : {C : Type 0} → Prometheus → C → KeyedEventProducer (EventProducer C)
producer_of p client = new_event_producer (config_of p) client

module _ (r : Resources Prometheus) (retry_success : Retry r.World)
    (retry_error : Retry (Error × Served r.World)) {C : Type 0}
    (get_service : NamespacedName → r.World → Outcome (List ServicePort))
    (get_stored : NamespacedName → r.World → Outcome Secret) (log_error : Outcome (Unit {0}))
    (new_client : ClientConfig → Outcome C) where
  abbrev after :
      NamespacedName
      → Manager (EventProducer C)
      → Served r.World
      → Outcome ℤ × (Manager (EventProducer C) × Served r.World)
  after = reconcile r retry_success retry_error get_service get_stored log_error new_client

  abbrev client_of : Prometheus → r.World → Outcome C
  client_of = create_p8s_client get_service get_stored log_error new_client

  -- What a reconciliation may do to the producers.
  pub data SourceChanged (name : NamespacedName) (s : Served r.World)
      (m m' : Manager (EventProducer C)) : Type 0 where
    unchanged : m' ≡ m → SourceChanged name s m m'
    gone :
        (e : Error)
        → r.get name s.world ≡ err e
        → is_not_found e ≡ true
        → m' ≡ remove m name
        → SourceChanged name s m m'
    installed :
        (p : Prometheus) (client : C)
        → r.get name s.world ≡ ok p
        → exists m p.object_meta ≡ false
        → create_p8s_client get_service get_stored log_error new_client p s.world ≡ ok client
        → m' ≡ add m (producer_of p client)
        → SourceChanged name s m m'

  reconcile_new :
      (name : NamespacedName) (m : Manager (EventProducer C)) (s : Served r.World) (p : Prometheus)
      (client : C)
      → r.get name s.world ≡ ok p
      → exists m p.object_meta ≡ false
      → client_of p s.world ≡ ok client
      → (after name m s).1.0 ≡ add m (producer_of p client)
  unfolding reconcile install
  reconcile_new name m s p client g new c = ground (arith, g, new, c)

  reconcile_known :
      (name : NamespacedName) (m : Manager (EventProducer C)) (s : Served r.World) (p : Prometheus)
      → r.get name s.world ≡ ok p
      → exists m p.object_meta ≡ true
      → (after name m s).1.0 ≡ m
  unfolding reconcile
  reconcile_known name m s p g old = ground (arith, g, old)

  reconcile_no_client :
      (name : NamespacedName) (m : Manager (EventProducer C)) (s : Served r.World) (p : Prometheus)
      → r.get name s.world ≡ ok p
      → exists m p.object_meta ≡ false
      → ((e : Error) × (client_of p s.world ≡ err e)) ⊎ (client_of p s.world ≡ panic)
      → (after name m s).1.0 ≡ m
  unfolding reconcile install
  reconcile_no_client name m s p g new (inl (e, c)) = ground (arith, g, new, c)
  reconcile_no_client name m s p g new (inr c) = ground (arith, g, new, c)

  reconcile_error :
      (name : NamespacedName) (m : Manager (EventProducer C)) (s : Served r.World) (e : Error)
      → r.get name s.world ≡ err e
      → SourceChanged name s m (after name m s).1.0
  unfolding reconcile
  reconcile_error name m s e g = elim (Bool-cases (is_not_found e)) [
    | inl lost ↦ gone e g lost (ground (arith, g, lost))
    | inr other ↦ unchanged (ground (arith, g, other))
  ]

  -- Whatever the API server answers, a reconciliation leaves the producers as they were, or removes
  -- the name that the server does not find, or adds one producer, whose client was made for the
  -- source that was found, where that generation of the source has no producer yet.
  pub reconcile-SourceChanged :
      (name : NamespacedName) (m : Manager (EventProducer C)) (s : Served r.World)
      → SourceChanged name s m
          (reconcile r retry_success retry_error get_service get_stored log_error new_client name m
            s).1.0
  reconcile-SourceChanged name m s = elim (Outcome-cases (r.get name s.world)) [
    | inr (inl (e, g)) ↦ reconcile_error name m s e g
    | inr (inr g) ↦ unchanged (unfold reconcile in ground (arith, g))
    | inl (p, g) ↦ elim (Bool-cases (exists m p.object_meta)) [
      | inl old ↦ unchanged (reconcile_known name m s p g old)
      | inr new ↦ elim (Outcome-cases (client_of p s.world)) [
        | inl (client, c) ↦ installed p client g new c (reconcile_new name m s p client g new c)
        | inr none_made ↦ unchanged (reconcile_no_client name m s p g new none_made)
      ]
    ]
  ]

  abbrev Unsettled : Outcome ℤ → Type 0
  Unsettled o = (o ≡ ok (pos (30 * 1000000000))) ⊎ (((e : Error) × (o ≡ err e)) ⊎ (o ≡ panic))

  finish-Unsettled : (o : Outcome (Unit {0})) → Unsettled (finish o (pos (30 * 1000000000)))
  finish-Unsettled (ok _) = inl refl
  finish-Unsettled (err e) = inr (inl (e, refl))
  finish-Unsettled panic = inr (inr refl)

  handle_error-Unsettled :
      (meta : ObjectMeta) (e : Error) (s : Served r.World)
      → Unsettled (handle_error_and_requeue r retry_success retry_error meta e requeue_delay s).0
  unfolding handle_error_and_requeue
  handle_error-Unsettled meta e s =
      finish-Unsettled (retry_error.on_error is_conflict (write_error r meta) (e, s)).0

  reconcile_failed :
      (name : NamespacedName) (m : Manager (EventProducer C)) (s : Served r.World) (p : Prometheus)
      (e : Error)
      → r.get name s.world ≡ ok p
      → exists m p.object_meta ≡ false
      → client_of p s.world ≡ err e
      → (after name m s).0
        ≡ (handle_error_and_requeue r retry_success retry_error p.object_meta e requeue_delay s).0
  unfolding reconcile install
  reconcile_failed name m s p e g new c = ground (arith, g, new, c)

  -- A source whose client cannot be made is not forgotten: the producers stay as they were, and,
  -- unless the program panics, the reconciliation ends in an error or asks for another in thirty
  -- seconds, which are given in nanoseconds.
  pub failed_client_requeues :
      (name : NamespacedName) (m : Manager (EventProducer C)) (s : Served r.World) (p : Prometheus)
      (e : Error)
      → r.get name s.world ≡ ok p
      → exists m p.object_meta ≡ false
      → create_p8s_client get_service get_stored log_error new_client p s.world ≡ err e
      → let whole =
          reconcile r retry_success retry_error get_service get_stored log_error new_client name m
            s in
        (whole.1.0 ≡ m)
        × ((whole.0 ≡ ok (pos (30 * 1000000000)))
            ⊎ (((e' : Error) × (whole.0 ≡ err e')) ⊎ (whole.0 ≡ panic)))
  failed_client_requeues name m s p e g new c = (
    reconcile_no_client name m s p g new (inl (e, c)),
    subst Unsettled (sym (reconcile_failed name m s p e g new c))
        (handle_error-Unsettled p.object_meta e s),
  )
