-- ===== src/Actions/Runner.antt =====
-- pkg/actions/action.go: `InMemoryRunner.Run`, with `retry.OnError` of client-go and the recorder of
-- Kubernetes events. A panic of an action ends the program.
pub mod Trace
use k8s_countermeasures.Prelude.{
  Text, codes, if◌then◌else◌, Option, none, some, List, [], ◌∷◌, ◌++◌, Bool, true, ◌≡◌,
}
use k8s_countermeasures.Outcome.{Outcome, Error, ok, err, panic, error_text}
use k8s_countermeasures.Events.{Event}
use k8s_countermeasures.Api.Types.{CounterMeasure}
use k8s_countermeasures.Actions.Cluster.{Cluster}
use k8s_countermeasures.Actions.Perform.{
  Action, get_type, get_name, supports_retry, perform, get_target_object_name,
}

-- The attempts that end in a result: all but the last failed with an error that may be retried.
pub data Attempts {W : Type 0} (retriable : Error → Bool) (fn : W → Outcome (Unit {0}) × W)
    : W → Outcome (Unit {0}) × W → Type 0 where
  last : {w : W} {r : Outcome (Unit {0}) × W} → fn w ≡ r → Attempts retriable fn w r
  again :
      {w : W} {r : Outcome (Unit {0}) × W} (e : Error) (w' : W)
      → fn w ≡ (err e, w')
      → retriable e ≡ true
      → Attempts retriable fn w' r
      → Attempts retriable fn w r

-- `retry.OnError(retry.DefaultBackoff, retriable, fn)`: calls the function until it succeeds, fails
-- with an error that is not to be retried, or has been called often enough.
pub record Retry (W : Type 0) : Type 0 where
  pub on_error : (Error → Bool) → (W → Outcome (Unit {0}) × W) → W → Outcome (Unit {0}) × W
  pub on_error-Attempts :
      (retriable : Error → Bool) (fn : W → Outcome (Unit {0}) × W) (w : W)
      → Attempts retriable fn w (on_error retriable fn w)

pub data Recorded : Type 0 where
  action_error action_taken : Text → Recorded
  skipping : Recorded

pub record Labels : Type 0 where
  pub namespace : Text
  pub kind : Text

-- The cluster, the recorded events and the two counters, as the labels that they were raised with,
-- all in order.
pub record RunState (World : Type 0) : Type 0 where
  pub world : World
  pub events : List Recorded
  pub taken : List Labels
  pub errors : List Labels

unfoldable pub taken_message : CounterMeasure → Action → Text → Text
unfolding get_name
taken_message cm a target =
    let msg = codes "Alert detected, action '" ++ (get_name a ++ (codes "' taken on " ++ target)) in
    if cm.spec.dry_run then msg ++ codes ". DryRun=true" else msg

unfoldable pub labels : CounterMeasure → Action → Labels
unfolding get_type
labels cm a = record { namespace = cm.object_meta.namespace; kind = get_type a }

module _ (c : Cluster) (retry : Retry c.World) (cm : CounterMeasure) (event : Event) where
  unfoldable pub attempt : Action → c.World → Outcome (Unit {0}) × c.World
  unfolding supports_retry
  attempt a w = retry.on_error (λ e. supports_retry a) (perform c a event) w

  unfoldable pub failed_action : Action → Error → c.World → RunState c.World → RunState c.World
  unfolding labels
  failed_action a e w s = record {
    world = w;
    events = s.events ++ action_error (error_text e) ∷ [];
    taken = s.taken;
    errors = s.errors ++ labels cm a ∷ [];
  }

  unfoldable pub taken_action : Action → Text → c.World → RunState c.World → RunState c.World
  unfolding labels taken_message
  taken_action a target w s = record {
    world = w;
    events = s.events ++ action_taken (taken_message cm a target) ∷ [];
    taken = s.taken ++ labels cm a ∷ [];
    errors = s.errors;
  }

  -- `none` is a panic.
  unfoldable pub run : List Action → RunState c.World → Option (RunState c.World)
  unfolding attempt failed_action taken_action
  run [] s = some s
  run (a ∷ rest) s =
      let (o, w) = attempt a s.world in
      elim o [
        | ok _ ↦ elim (get_target_object_name c a event) [
          | ok target ↦ run rest (taken_action a target w s)
          | err _ ↦ none
          | panic ↦ none
        ]
        | err e ↦ some (failed_action a e w s)
        | panic ↦ none
      ]
