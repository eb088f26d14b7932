-- ===== src/Status.antt =====
-- The status of resources, as both controllers write it: controllers/countermeasure and
-- controllers/eventsource. The resources of the API server are an interface, as is
-- `meta.SetStatusCondition`. A write fetches the resource again, changes it and updates its status;
-- `retry.RetryOnConflict` is `retry.OnError` for conflicts.
use k8s_countermeasures.Prelude.{Text, codes, none, some, List, [], ◌∷◌, ◌++◌, Bool, true, false}
use k8s_countermeasures.Prelude.Int.{ℤ}
use k8s_countermeasures.Manager.{NamespacedName, ObjectMeta}
use k8s_countermeasures.Outcome.{Outcome, Error, ok, err, panic, error_text, conflict}
use k8s_countermeasures.Api.Types.{Condition}

pub record Resources (A : Type 0) : Type 1 where
  pub World : Type 0
  pub get : NamespacedName → World → Outcome A
  -- `Status().Update`: the object as the server answers it
  pub update_status : A → World → Outcome A × World
  pub set_status_condition : List Condition → Condition → List Condition
  -- the clock, read for the condition and for the status
  pub condition_time : World → ℤ
  pub status_time : World → ℤ

abbrev pub is_conflict : Error → Bool
is_conflict (conflict t) = true
is_conflict _ = false

-- The API server, and the messages of the events with the reason `ProcessingError`.
pub record Served (World : Type 0) : Type 0 where
  pub world : World
  pub recorded : List Text

abbrev pub name_of : ObjectMeta → NamespacedName
name_of m = record { namespace = m.namespace; name = m.name }

-- The condition that is true, which is written on success, and on an error with its message.
unfoldable pub true_condition : Text → ObjectMeta → Text → ℤ → Condition
true_condition kind meta message now = record {
  kind = kind;
  status = codes "True";
  observed_generation = meta.generation;
  last_transition_time = some now;
  reason = codes "Succeeded";
  message = message;
}

unfoldable pub initializing_condition : Text → ObjectMeta → Condition
initializing_condition kind meta = record {
  kind = kind;
  status = codes "Unknown";
  observed_generation = meta.generation;
  last_transition_time = none;
  reason = codes "Reconciling";
  message = codes "Initializing";
}

abbrev pub finish : Outcome (Unit {0}) → ℤ → Outcome ℤ
finish (ok _) delay = ok delay
finish (err e) delay = err e
finish panic delay = panic

module _ {A : Type 0} (r : Resources A) where
  open r use {World, get, update_status}

  unfoldable pub rewrite : (A → World → A) → NamespacedName → World → Outcome (Unit {0}) × World
  rewrite change name w = elim (get name w) [
    | err e ↦ (err e, w)
    | panic ↦ (panic, w)
    | ok a ↦
        let (answer, w') = update_status (change a w) w in
        elim answer [ ok _ ↦ (ok tt, w') | err e ↦ (err e, w') | panic ↦ (panic, w') ]
  ]

  -- The error that the closure writes, and what it writes to: an update that fails is recorded, and
  -- leaves its own error for the next attempt.
  unfoldable pub rewrite_error :
      (Text → A → World → A)
      → NamespacedName
      → Error × Served World
      → Outcome (Unit {0}) × (Error × Served World)
  rewrite_error change name (e, s) = elim (get name s.world) [
    | err e' ↦ (err e', (e, s))
    | panic ↦ (panic, (e, s))
    | ok a ↦
        let (answer, w) = update_status (change (error_text e) a s.world) s.world in
        elim answer [
          | ok _ ↦ (ok tt, (e, record { world = w; recorded = s.recorded }))
          | err e' ↦
              (err e', (e', record { world = w; recorded = s.recorded ++ error_text e' ∷ [] }))
          | panic ↦ (panic, (e, record { world = w; recorded = s.recorded }))
        ]
  ]

  -- The object is a pointer, which the calls of the client overwrite.
  unfoldable pub rewrite_pointer :
      (A → NamespacedName) → (A → World → A) → A × World → Outcome (Unit {0}) × (A × World)
  rewrite_pointer name change (a, w) = elim (get (name a) w) [
    | err e ↦ (err e, (a, w))
    | panic ↦ (panic, (a, w))
    | ok found ↦
        let next = change found w in
        let (answer, w') = update_status next w in
        elim answer [
          | ok updated ↦ (ok tt, (updated, w'))
          | err e ↦ (err e, (next, w'))
          | panic ↦ (panic, (next, w'))
        ]
  ]
