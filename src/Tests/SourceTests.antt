-- ===== src/Tests/SourceTests.antt =====
-- The sources and their producers at concrete inputs.
use k8s_countermeasures.Prelude.{ℕ, Option, none, some, [], ◌∷◌, ◌++◌, true, false, ◌≡◌, ◌↔◌, ◌⊎◌}
use k8s_countermeasures.Manager.{NamespacedName, ObjectKey, object_key_eq, namespaced_name_eq}
use k8s_countermeasures.Outcome.{Error}
use k8s_countermeasures.Sources.{is_blank, get_namespaced_name, validate_prometheus}
use k8s_countermeasures.Sources.Admission.{SecretIsRead, validate_prometheus_iff}
use k8s_countermeasures.Producer.Registered.{
  KeyedEventProducer, Manager, blocked, start, start_event_producer, start_producers,
}
use k8s_countermeasures.Producer.Registered.Starting.{start_hangs, Producers}
use k8s_countermeasures.Tests.Fixtures.{key, source}

abbrev all_there : NamespacedName → Option Error
all_there n = none

validate_prometheus_iff_example : (validate_prometheus all_there all_there source ≡ none) ↔ (
    (is_blank source.spec.service ≡ false)
    × (all_there (get_namespaced_name source.spec.service) ≡ none)
    × SecretIsRead all_there all_there source source.spec.auth)
validate_prometheus_iff_example = validate_prometheus_iff all_there all_there source

abbrev first : KeyedEventProducer ℕ
first = record { key = key; producer = 0 }

-- A manager that has a producer before it starts.
abbrev waiting : Manager ℕ
waiting = record {
  is_started = false;
  is_closed = false;
  producers = (key, first) ∷ [];
  started = [];
}

start_hangs_example :
    ((waiting.producers ≡ [])
      × (start (λ p. start_event_producer false) waiting
          ≡ some (record waiting { is_started = true; is_closed = true })))
    ⊎ ((k : ObjectKey) × (p : KeyedEventProducer ℕ) × (rest : Producers ℕ) × (waiting.producers
          ≡ (k, p) ∷ rest)
        × (start (λ p. start_event_producer false) waiting ≡ none)
        × ((start_producers (λ p. start_event_producer false) waiting).0 ≡ blocked)
        × ((start_producers (λ p. start_event_producer false) waiting).1.started
            ≡ waiting.started ++ p ∷ []))
start_hangs_example = start_hangs waiting
