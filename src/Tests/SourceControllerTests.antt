-- ===== src/Tests/SourceControllerTests.antt =====
-- Reconciliations of sources at concrete inputs.
use k8s_countermeasures.Prelude.{
  ℕ, suc, lookup, ◌*◌, codes, some, List, [], ◌∷◌, true, false, ◌≡◌, ◌⊎◌, refl,
}
use k8s_countermeasures.Prelude.Int.{pos}
use k8s_countermeasures.Manager.{NamespacedName, ObjectMeta, object_key_eq}
use k8s_countermeasures.Outcome.{Outcome, Error, ok, err, panic, failed}
use k8s_countermeasures.Sources.{Prometheus}
use k8s_countermeasures.Producer.Client.{ClientConfig}
use k8s_countermeasures.Producer.Registered.{KeyedEventProducer, Manager, exists}
use k8s_countermeasures.Reconciler.{ServicePort, Secret, find_named_port}
use k8s_countermeasures.Prelude.Decimals.{decimal_int}
use k8s_countermeasures.Status.{Resources, Served}
use k8s_countermeasures.SourceController.{EventProducer, create_p8s_client, reconcile, address_of}
use k8s_countermeasures.SourceController.Reconciling.{
  producer_of, SourceChanged, reconcile-SourceChanged, failed_client_requeues,
}
use k8s_countermeasures.Tests.Fixtures.{meta, name, key, retry_of, source}

abbrev serving : Resources Prometheus
serving = record {
  World = ℕ;
  get = λ n w. ok source;
  update_status = λ p w. (ok p, suc w);
  set_status_condition = λ cs c. c ∷ cs;
  condition_time = λ w. pos w;
  status_time = λ w. pos w;
}

abbrev get_service : NamespacedName → ℕ → Outcome (List ServicePort)
get_service n w = ok (record { name = codes "web"; port = pos 9091 } ∷ [])

abbrev get_stored : NamespacedName → ℕ → Outcome Secret
get_stored n w = ok (record {
  kind = codes "kubernetes.io/basic-auth";
  username = codes "user";
  password = codes "pass";
})

abbrev new_client : ClientConfig → Outcome ClientConfig
new_client c = ok c

abbrev no_client : ClientConfig → Outcome ClientConfig
no_client c = err (failed [])

abbrev fresh : Served ℕ
fresh = record { world = 0; recorded = [] }

-- The only port of the service is taken, whatever port the source names.
address :
    address_of source.spec.service (record { name = codes "web"; port = pos 9091 } ∷ [])
    ≡ codes "http://prom.ns.svc:9091"
unfolding address_of decimal_int find_named_port
address = refl

abbrev client : ClientConfig
client = record {
  address = codes "http://prom.ns.svc:9091";
  basic_auth = some (codes "user", codes "pass");
}

abbrev old_meta : ObjectMeta
old_meta = record meta { generation = pos 0 }

abbrev old_producer : KeyedEventProducer (EventProducer ClientConfig)
old_producer = producer_of (record source { object_meta = old_meta }) client

abbrev polling : Manager (EventProducer ClientConfig)
polling = record {
  is_started = true;
  is_closed = false;
  producers = (record key { generation = pos 0 }, old_producer) ∷ [];
  started = old_producer ∷ [];
}

reconcile-SourceChanged_example :
    SourceChanged serving
      (retry_of ℕ)
      (retry_of (Error × Served ℕ))
      get_service
      get_stored
      (ok tt)
      new_client
      name
      fresh
      polling
      (reconcile serving
        (retry_of ℕ)
        (retry_of (Error × Served ℕ))
        get_service
        get_stored
        (ok tt)
        new_client
        name
        polling
        fresh).1.0
reconcile-SourceChanged_example =
    reconcile-SourceChanged serving (retry_of ℕ) (retry_of (Error × Served ℕ)) get_service
      get_stored (ok tt) new_client name polling fresh

absent : exists polling source.object_meta ≡ false
unfolding exists lookup
absent = refl

refused :
    create_p8s_client get_service get_stored (ok tt) no_client source 0
    ≡ err (failed (codes "error creating client, "))
unfolding create_p8s_client
refused = refl

failed_client_requeues_example :
    let whole =
      reconcile serving
        (retry_of ℕ)
        (retry_of (Error × Served ℕ))
        get_service
        get_stored
        (ok tt)
        no_client
        name
        polling
        fresh in
    (whole.1.0 ≡ polling)
    × ((whole.0 ≡ ok (pos (30 * 1000000000)))
        ⊎ (((e' : Error) × (whole.0 ≡ err e')) ⊎ (whole.0 ≡ panic)))
failed_client_requeues_example =
    failed_client_requeues serving (retry_of ℕ) (retry_of (Error × Served ℕ)) get_service get_stored
      (ok tt) no_client name polling fresh source (failed (codes "error creating client, ")) refl
      absent refused
