-- ===== src/Actions/Manager/Throttle.antt =====
-- The goroutine of a countermeasure against a description that knows neither the state nor its
-- housekeeping: for each key, until when its events are skipped.
use k8s_countermeasures.Prelude.{
  text_eq, lookup, lookup-insert_self, Option, none, some, List, [], ◌∷◌, true, false, ◌≡◌, refl,
  sym, ap, ◌∙◌, subst, arith, inl, inr, Bool-cases, Option-cases,
}
use k8s_countermeasures.Prelude.Int.{ℤ, ◌≤ℤ◌}
use k8s_countermeasures.Manager.{to_key, ObjectKey, object_key_eq}
use k8s_countermeasures.Outcome.{ok}
use k8s_countermeasures.Events.{Event}
use k8s_countermeasures.Events
use k8s_countermeasures.Api.Types.{CounterMeasure}
use k8s_countermeasures.State
use k8s_countermeasures.State.{
  new_entry, ActionState, Entry, get_counter_measure, is_suppressed, within,
  clear_expired_last_runs, drop_expired, record_run, policy_duration,
}
use k8s_countermeasures.State.Suppression.{ran, run_state, get_lem}
use k8s_countermeasures.Actions.Cluster.{Cluster}
use k8s_countermeasures.Actions.Perform.{Action}
use k8s_countermeasures.Actions.Registry.{Registry, new_runner}
use k8s_countermeasures.Actions.Runner.{Retry, RunState, run}
use k8s_countermeasures.Actions.Manager.{Round, serve, skip}
use k8s_countermeasures.Actions.Manager.Handling.{handle_suppressed, handle_lem, execute_lem}
use k8s_countermeasures.Actions.Manager.Limits.{
  Limits, is_ahead, limited, InOrder, throttled, Tracks, is_suppressed-limits, le_trans, tidy,
  tidy-Tracks, ran-counter_measure, run-Tracks,
}

counter_measure-tidied :
    (e : Entry) (now : ℤ) → (clear_expired_last_runs e now).counter_measure ≡ e.counter_measure
unfolding clear_expired_last_runs
counter_measure-tidied e now = refl

module _ (c : Cluster) (retry : Retry c.World) (registry : Registry) (cm : CounterMeasure)
    (xs : List Action) where
  -- What the goroutine has performed and recorded when its channel is closed.
  abbrev pub outcome : Option (ActionState × RunState c.World) → Option (RunState c.World)
  outcome none = none
  outcome (some (s, rs)) = some rs

  pub throttled_skips :
      (limits : Limits) (r : Round) (rounds : List Round) (rs : RunState c.World)
      → is_ahead (limits (Events.key r.event)) r.checked ≡ true
      → throttled c retry registry cm xs limits (r ∷ rounds) rs
        ≡ throttled c retry registry cm xs limits rounds (skip c retry registry rs)
  throttled_skips limits r rounds rs h = rw (throttled, h) refl

  pub throttled_performs :
      (limits : Limits) (r : Round) (rounds : List Round) (rs : RunState c.World)
      → is_ahead (limits (Events.key r.event)) r.checked ≡ false
      → throttled c retry registry cm xs limits (r ∷ rounds) rs
        ≡ elim (run c retry cm r.event xs rs) [
          | none ↦ none
          | some rs' ↦
              throttled c retry registry cm xs
                (limited
                  (policy_duration cm.spec.on_event.suppression_policy)
                  (Events.key r.event)
                  r.started
                  limits)
                rounds
                rs'
        ]
  throttled_performs limits r rounds rs h = rw (throttled, h) refl

  module _ (runner : new_runner registry cm.spec ≡ ok xs) (s : ActionState) (key : ObjectKey)
      (e : Entry) (limits : Limits) (t : ℤ) (h : Tracks s key e limits t)
      (same : e.counter_measure ≡ cm) (r : Round) (rounds : List Round) (rs : RunState c.World)
      (le : t ≤ℤ r.found) (le' : r.found ≤ℤ r.checked) where
    serve_skips :
        is_ahead (limits (Events.key r.event)) r.checked ≡ true
        → serve c retry registry s key (r ∷ rounds) rs
          ≡ serve c retry registry (tidy s key e r.found) key rounds (skip c retry registry rs)
    unfolding serve
    serve_skips skipped = ground (
      arith,
      handle_suppressed c retry registry s r.event key r.found r.checked r.started rs e h.there
          h.distinct le'
          (is_suppressed-limits s key e limits t r.checked r.event h
              (le_trans t r.found r.checked le le')
            ∙ skipped),
      get_lem s key r.found e h.there,
    )

    serve_performs :
        is_ahead (limits (Events.key r.event)) r.checked ≡ false
        → serve c retry registry s key (r ∷ rounds) rs ≡ elim (run c retry cm r.event xs rs) [
          | none ↦ none
          | some rs' ↦
              serve c retry registry
                (run_state
                  (tidy s key e r.found)
                  (clear_expired_last_runs e r.found)
                  r.event
                  key
                  r.started)
                key
                rounds
                rs'
        ]
    unfolding serve
    serve_performs quiet =
        let runs = subst (λ m. new_runner registry m.spec ≡ ok xs) (sym same) runner in
        let quiet' =
          is_suppressed-limits s key e limits t r.checked r.event h
            (le_trans t r.found r.checked le le')
          ∙ quiet in
        ground (
          arith,
          same,
          handle_lem c retry registry s r.event key r.found r.checked r.started rs e xs h.there runs
              h.distinct le' quiet',
          execute_lem c retry registry s r.event key r.found r.checked r.started rs e xs h.there
              runs,
        )

  -- An idle entry that stands for the limits is served as the description says.
  pub serve_throttles :
      (s : ActionState) (key : ObjectKey) (e : Entry) (limits : Limits) (t : ℤ)
      (rounds : List Round) (rs : RunState c.World)
      → new_runner registry cm.spec ≡ ok xs
      → e.counter_measure ≡ cm
      → Tracks s key e limits t
      → InOrder t rounds
      → outcome (serve c retry registry s key rounds rs)
        ≡ throttled c retry registry cm xs limits rounds rs
  serve_throttles s key e limits t [] rs runner same h o = unfold serve in refl
  serve_throttles s key e limits t (r ∷ rounds) rs runner same h (le, le', o) =
      let tidied = tidy-Tracks s key e limits t r.found h le in
      let same' = counter_measure-tidied e r.found ∙ same in
      elim (Bool-cases (is_ahead (limits (Events.key r.event)) r.checked)) [
        | inl skipped ↦
            ap outcome (serve_skips runner s key e limits t h same r rounds rs le le' skipped)
            ∙ serve_throttles (tidy s key e r.found) key (clear_expired_last_runs e r.found) limits
                r.found rounds (skip c retry registry rs) runner same' tidied o
            ∙ sym (throttled_skips limits r rounds rs skipped)
        | inr quiet ↦
            ap outcome (serve_performs runner s key e limits t h same r rounds rs le le' quiet)
            ∙ (elim (Option-cases (run c retry cm r.event xs rs)) [
              | inl panics ↦ rw panics refl
              | inr (rs', performed) ↦ rw performed (
                  serve_throttles
                    (run_state (tidy s key e r.found) (clear_expired_last_runs e r.found) r.event
                      key r.started)
                    key (ran (clear_expired_last_runs e r.found) r.event r.started)
                    (limited (policy_duration cm.spec.on_event.suppression_policy)
                      (Events.key r.event) r.started limits)
                    r.found rounds rs' runner
                    (ran-counter_measure (clear_expired_last_runs e r.found) r.event r.started
                      ∙ same')
                    (run-Tracks (tidy s key e r.found) key (clear_expired_last_runs e r.found)
                      limits r.found r.started r.event _
                      (ap (λ m. policy_duration m.spec.on_event.suppression_policy) same') tidied)
                    o)
            ])
            ∙ sym (throttled_performs limits r rounds rs quiet)
      ]

new_entry-Tracks :
    (s : ActionState) (cm : CounterMeasure) (t : ℤ)
    → Tracks (State.add s cm) (to_key cm.object_meta) (new_entry cm) (λ k. none) t
unfolding State.add
new_entry-Tracks s cm t = record {
  there = lookup-insert_self (to_key cm.object_meta) (new_entry cm) _;
  idle = unfold new_entry in refl;
  distinct = unfold new_entry in tt;
  agrees = λ k now le. unfold new_entry lookup within in refl;
}

-- From its installation on, a countermeasure for which the registry has a runner is served as the
-- description says, whatever events arrive and in whatever number: the actions are performed for
-- an event exactly when the limit of its key is not ahead, which is then set to the start of the
-- round plus the duration of the suppression policy, if it has one; every other event is skipped.
-- The housekeeping of old limits makes no difference, and a panic of the actions is the only one in
-- these rounds, as long as the clock does not go back and nothing else changes the state while they
-- are served: no countermeasure is removed or installed between the reads and writes of a round.
pub installed_throttles :
    (c : Cluster) (retry : Retry c.World) (registry : Registry) (s : ActionState)
    (cm : CounterMeasure) (xs : List Action) (t : ℤ) (rounds : List Round) (rs : RunState c.World)
    → new_runner registry cm.spec ≡ ok xs
    → InOrder t rounds
    → outcome c retry registry cm xs
        (serve c retry registry (State.add s cm) (to_key cm.object_meta) rounds rs)
      ≡ throttled c retry registry cm xs (λ k. none) rounds rs
installed_throttles c retry registry s cm xs t rounds rs runner o =
    serve_throttles c retry registry cm xs (State.add s cm) (to_key cm.object_meta) (new_entry cm)
      (λ k. none) t rounds rs runner (unfold new_entry in refl) (new_entry-Tracks s cm t) o
