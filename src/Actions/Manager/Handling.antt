-- ===== src/Actions/Manager/Handling.antt =====
-- What a round of the goroutine does with an event.
use k8s_countermeasures.Prelude.{
  text_eq, lookup, insert, DistinctKeys, ==_iff, Option, none, some, List, true, false, ◌≡◌, refl,
  ap, ◌∙◌, subst, inl, inr, arith, Option-cases, some_inj, lookup-insert_self,
}
use k8s_countermeasures.Prelude.Int.{ℤ, ◌+ℤ◌, ◌≤ℤ◌, lt_ℤ}
use k8s_countermeasures.Manager.{ObjectKey, object_key_eq}
use k8s_countermeasures.Outcome.{ok}
use k8s_countermeasures.Events.{Event}
use k8s_countermeasures.Events
use k8s_countermeasures.State.{
  ActionState, Entry, get_counter_measure, is_suppressed, clear_expired_last_runs,
}
use k8s_countermeasures.State.Suppression.{
  duration_of, ran, run_state, start_lem, end_lem, ran-is_suppressed, get_lem, clear-is_suppressed,
}
use k8s_countermeasures.State.Validity.{clear-DistinctKeys, record_run-DistinctKeys}
use k8s_countermeasures.Actions.Cluster.{Cluster}
use k8s_countermeasures.Actions.Perform.{Action}
use k8s_countermeasures.Actions.Registry.{Registry, new_runner}
use k8s_countermeasures.Actions.Runner.{Retry, RunState, run}
use k8s_countermeasures.Actions.Manager.{handle, execute, skip}

module _ (c : Cluster) (retry : Retry c.World) (registry : Registry) where
  -- An entry that suppresses the event is skipped: nothing is performed, and that is recorded.
  pub handle_suppressed :
      (s : ActionState) (event : Event) (key : ObjectKey) (found checked started : ℤ)
      (rs : RunState c.World) (e : Entry)
      → lookup key s.measures ≡ some e
      → DistinctKeys e.last_runs
      → found ≤ℤ checked
      → is_suppressed e event checked ≡ true
      → handle c retry registry s event key found checked started rs
        ≡ some ((get_counter_measure s key found).1, skip c retry registry rs)
  unfolding handle
  handle_suppressed s event key found checked started rs e h d le supp =
      ground (arith, get_lem s key found e h, clear-is_suppressed e event found checked d le)

  module _ (s : ActionState) (event : Event) (key : ObjectKey) (found checked started : ℤ)
      (rs : RunState c.World) (e : Entry) (xs : List Action)
      (there : lookup key s.measures ≡ some e)
      (runner : new_runner registry e.counter_measure.spec ≡ ok xs) where
    abbrev pub kept : Entry
    kept = clear_expired_last_runs e found

    abbrev pub tidied : ActionState
    tidied = record { measures = insert key kept s.measures }

    counter_measure-kept : kept.counter_measure ≡ e.counter_measure
    unfolding clear_expired_last_runs
    counter_measure-kept = refl

    lookup-tidied : lookup key tidied.measures ≡ some kept
    lookup-tidied = lookup-insert_self key kept s.measures

    -- What a round that performs the actions amounts to: the run, between its start and its end.
    pub execute_lem :
        execute c retry registry tidied kept event key started rs
        ≡ elim (run c retry e.counter_measure event xs rs) [
          | none ↦ none
          | some rs' ↦ some (run_state tidied kept event key started, rs')
        ]
    unfolding execute clear_expired_last_runs
    execute_lem = ground (
      arith,
      runner,
      start_lem tidied event key started kept lookup-tidied,
      end_lem tidied event key started kept,
    )

    pub handle_lem :
        DistinctKeys e.last_runs
        → found ≤ℤ checked
        → is_suppressed e event checked ≡ false
        → handle c retry registry s event key found checked started rs
          ≡ execute c retry registry tidied kept event key started rs
    unfolding handle
    handle_lem d le quiet =
        ground (arith, get_lem s key found e there, clear-is_suppressed e event found checked d le)

    -- A round that performs the actions and ends is the run, and leaves its record in the state.
    pub handle_runs :
        (s' : ActionState) (rs' : RunState c.World)
        → DistinctKeys e.last_runs
        → found ≤ℤ checked
        → is_suppressed e event checked ≡ false
        → handle c retry registry s event key found checked started rs ≡ some (s', rs')
        → (run c retry e.counter_measure event xs rs ≡ some rs')
          × (run_state tidied kept event key started ≡ s')
    handle_runs s' rs' dist le quiet done =
        elim (Option-cases (run c retry e.counter_measure event xs rs)) [
          | inl p ↦ absurd (ground (arith, handle_lem dist le quiet, execute_lem, p))
          | inr (r, p) ↦
              let whole : ◌≡◌ {A = Option (ActionState × RunState c.World)}
                  (some (run_state tidied kept event key started, r)) (some (s', rs')) =
                ground (arith, handle_lem dist le quiet, execute_lem, p) in
              (p ∙ ap some (ap (λ x. x.1) (some_inj whole)), ap (λ x. x.0) (some_inj whole))
        ]

    suppressed :
        (again : Event) (later d : ℤ)
        → duration_of e ≡ some d
        → Events.key event ≡ Events.key again
        → lt_ℤ later (started +ℤ d) ≡ true
        → is_suppressed (ran kept event started) again later ≡ true
    suppressed again later d hd same short = ground (
      arith,
      ran-is_suppressed kept event again started later d (unfold clear_expired_last_runs in hd),
      (==_iff (Events.key event) (Events.key again)).1 same,
    )

    -- After a round that performed the actions, the next event with the same key, while the policy's
    -- duration runs, is skipped: it performs nothing and is recorded as skipped.
    pub repeat_is_skipped :
        (again : Event) (found' checked' started' d : ℤ) (s' : ActionState) (rs' : RunState c.World)
        → DistinctKeys e.last_runs
        → found ≤ℤ checked
        → is_suppressed e event checked ≡ false
        → duration_of e ≡ some d
        → handle c retry registry s event key found checked started rs ≡ some (s', rs')
        → Events.key event ≡ Events.key again
        → found' ≤ℤ checked'
        → lt_ℤ checked' (started +ℤ d) ≡ true
        → (run c retry e.counter_measure event xs rs ≡ some rs')
          × (handle c retry registry s' again key found' checked' started' rs'
              ≡ some ((get_counter_measure s' key found').1, skip c retry registry rs'))
    repeat_is_skipped again found' checked' started' d s' rs' dist le quiet hd done same le' short =
        let (p, state) = handle_runs s' rs' dist le quiet done in
        (
          p,
          subst
              (λ t.
                handle c retry registry t again key found' checked' started' rs'
                ≡ some ((get_counter_measure t key found').1, skip c retry registry rs'))
              state
              (handle_suppressed (run_state tidied kept event key started) again key found' checked'
                started' rs' (ran kept event started) (lookup-insert_self key _ _)
                (record_run-DistinctKeys kept event started (clear-DistinctKeys e found dist)) le'
                (suppressed again checked' d hd same short)),
        )
