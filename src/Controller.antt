-- ===== src/Controller.antt =====
-- controllers/countermeasure/countermeasure_controller.go: reconciliation. A result is the delay of
-- the next reconciliation, or an error.
pub mod Reconciling
use k8s_countermeasures.Prelude.{
  Text, codes, is_empty, if◌then◌else◌, Option, none, some, List, [], ◌∷◌, ◌++◌, Bool, true, false,
}
use k8s_countermeasures.Prelude.Int.{ℤ, pos}
use k8s_countermeasures.Manager.{NamespacedName, ObjectMeta}
use k8s_countermeasures.Outcome.{Outcome, Error, ok, err, panic, error_text, not_found, conflict}
use k8s_countermeasures.Api.Types.{CounterMeasure, CounterMeasureStatus, Condition, LabelSelector}
use k8s_countermeasures.Api.Validation.{Aggregates, validate_spec}
use k8s_countermeasures.Actions.Manager
use k8s_countermeasures.Actions.Manager.{Manager, add, remove, exists}
use k8s_countermeasures.Actions.Runner.{Retry}
use k8s_countermeasures.Actions.Perform.{is_not_found}
use k8s_countermeasures.Reconciler.{handle_error}
use k8s_countermeasures.Status.{
  Resources, Served, is_conflict, name_of, true_condition, initializing_condition, finish, rewrite,
  rewrite_error, rewrite_pointer,
}

abbrev pub type_monitoring : Text
type_monitoring = codes "Monitoring"

module _ (r : Resources CounterMeasure) where
  open r use {World, get, set_status_condition, condition_time, status_time}

  -- The status with the condition set.
  unfoldable pub with_status : Condition → Text → CounterMeasure → World → CounterMeasure
  with_status condition last_status cm w = record cm {
    status = record {
      last_status = last_status;
      last_status_change_time = some (status_time w);
      conditions = set_status_condition cm.status.conditions condition;
    };
  }

  unfoldable pub write_success : ObjectMeta → World → Outcome (Unit {0}) × World
  unfolding with_status
  write_success meta =
      rewrite r
        (λ cm w.
          with_status (true_condition type_monitoring meta [] (condition_time w))
            (codes "Monitoring") cm w)
        (name_of meta)

  unfoldable pub write_error :
      ObjectMeta → Error × Served World → Outcome (Unit {0}) × (Error × Served World)
  unfolding with_status
  write_error meta =
      rewrite_error r
        (λ message cm w.
          with_status (true_condition type_monitoring meta message (condition_time w))
            (codes "Error") cm w)
        (name_of meta)

  unfoldable pub write_initializing :
      CounterMeasure × World → Outcome (Unit {0}) × (CounterMeasure × World)
  unfolding with_status
  write_initializing =
      rewrite_pointer r (λ cm. name_of cm.object_meta)
        (λ cm w.
          with_status (initializing_condition type_monitoring cm.object_meta) (codes "Unknown") cm
            w)

  module _ (retry_success : Retry World) (retry_error : Retry (Error × Served World))
      (retry_initializing : Retry (CounterMeasure × World)) where
    unfoldable pub handle_success : ObjectMeta → Served World → Outcome ℤ × Served World
    unfolding write_success
    handle_success meta s =
        let (o, w) = retry_success.on_error is_conflict (write_success meta) s.world in
        (finish o (pos 0), record { world = w; recorded = s.recorded })

    unfoldable pub handle_error_and_requeue :
        ObjectMeta → Error → ℤ → Served World → Outcome ℤ × Served World
    unfolding write_error
    handle_error_and_requeue meta e requeue_after s =
        let (o, (_, s')) = retry_error.on_error is_conflict (write_error meta) (e, s) in
        (finish o requeue_after, s')

    unfoldable pub mark_initializing :
        CounterMeasure → World → Outcome (Unit {0}) × (CounterMeasure × World)
    unfolding write_initializing
    mark_initializing cm w =
        if is_empty cm.status.conditions
        then retry_initializing.on_error is_conflict write_initializing (cm, w)
        else (ok tt, (cm, w))

    module _ (agg : Aggregates) (select_sources : LabelSelector → Option Error) where
      abbrev failing :
          CounterMeasure → Error → Manager → Served World → Outcome ℤ × (Manager × Served World)
      failing cm e m s =
          let (o, s') = handle_error handle_error_and_requeue cm.object_meta e s in (o, (m, s'))

      abbrev succeeding :
          CounterMeasure → Manager → Served World → Outcome ℤ × (Manager × Served World)
      succeeding cm m s = let (o, s') = handle_success cm.object_meta s in (o, (m, s'))

      -- The rest of `Reconcile`, after the countermeasure has been marked.
      unfoldable pub install :
          CounterMeasure → Manager → Served World → Outcome ℤ × (Manager × Served World)
      unfolding handle_success handle_error_and_requeue
      install cm m s = elim (validate_spec agg cm.spec) [
        | some e ↦ failing cm e m s
        | none ↦ elim (add select_sources m cm) [
          | ok m' ↦ succeeding cm m' s
          | err e ↦ failing cm e m s
          | panic ↦ (panic, (m, s))
        ]
      ]

      unfoldable pub reconcile :
          NamespacedName → Manager → Served World → Outcome ℤ × (Manager × Served World)
      unfolding install mark_initializing
      reconcile name m s = elim (get name s.world) [
        | err e ↦
            if is_not_found e
            then elim (remove m name) [ none ↦ (panic, (m, s)) | some m' ↦ (ok (pos 0), (m', s)) ]
            else (err e, (m, s))
        | panic ↦ (panic, (m, s))
        | ok cm ↦
            if exists m cm.object_meta
            then succeeding cm m s
            else let (o, (cm', w)) = mark_initializing cm s.world in
              let s' = record s { world = w } in
              elim o [
                | ok _ ↦ install cm' m s'
                | err e ↦ (err e, (m, s'))
                | panic ↦ (panic, (m, s'))
              ]
      ]
