-- ===== src/State.antt =====
-- pkg/actions/state/state.go: the deployed countermeasures, which of them run, and until when an
-- event is suppressed. `time.Now()` is an argument. The locks make each method one step, so a
-- method is a function of the state; `Add`, which locks twice, is the composition of two. An entry is
-- a pointer that only the map holds for writing: to write through it is to insert the new value under
-- its key.
pub mod Suppression
pub mod Deployment
pub mod Validity
pub mod Calls
use k8s_countermeasures.Prelude.{
  Text, text_eq, Map, lookup, insert, delete_where, ◌==◌, if◌then◌else◌, Option, none, some, List,
  [], ◌∷◌, Bool, true, false, ◌||◌,
}
use k8s_countermeasures.Prelude.Int.{ℤ, ◌+ℤ◌, lt_ℤ}
use k8s_countermeasures.Manager.{
  NamespacedName, ObjectKey, namespaced_name_eq, object_key_eq, to_key,
}
use k8s_countermeasures.Events.{Event}
use k8s_countermeasures.Events
use k8s_countermeasures.Api.Types.{CounterMeasure, SuppressionPolicySpec}

pub record Entry : Type 0 where
  pub name : Text
  pub counter_measure : CounterMeasure
  pub running : Bool
  pub last_runs : Map Text ℤ

-- `measures` is the field `counterMeasures`.
pub record ActionState : Type 0 where
  pub measures : Map ObjectKey Entry

unfoldable pub new_state : ActionState
new_state = record { measures = [] }

unfoldable pub is_running : ActionState → ObjectKey → Bool
is_running s key = elim (lookup key s.measures) [ none ↦ false | some entry ↦ entry.running ]

-- The duration of the suppression policy, if both pointers are there.
unfoldable pub policy_duration : Option SuppressionPolicySpec → Option ℤ
policy_duration none = none
policy_duration (some p) = p.duration

unfoldable pub record_run : Entry → Event → ℤ → Entry
record_run entry event now =
    elim (policy_duration entry.counter_measure.spec.on_event.suppression_policy) [
      | none ↦ record entry { running = true }
      | some d ↦ record entry {
        running = true;
        last_runs = insert (Events.key event) (now +ℤ d) entry.last_runs;
      }
    ]

-- `none` is the panic of `entry.Lock()` on a nil entry.
unfoldable pub counter_measure_start : ActionState → Event → ObjectKey → ℤ → Option ActionState
unfolding record_run policy_duration
counter_measure_start s event key now = elim (lookup key s.measures) [
  | none ↦ none
  | some entry ↦ some (record { measures = insert key (record_run entry event now) s.measures })
]

unfoldable pub counter_measure_end : ActionState → ObjectKey → Option ActionState
counter_measure_end s key = elim (lookup key s.measures) [
  | none ↦ none
  | some entry ↦
      some (record { measures = insert key (record entry { running = false }) s.measures })
]

unfoldable pub is_deployed : ActionState → ObjectKey → Bool
is_deployed s key = elim (lookup key s.measures) [ none ↦ false | some _ ↦ true ]

unfoldable pub remove : ActionState → NamespacedName → ActionState
remove s name = record { measures = delete_where (λ k. k.namespaced_name == name) s.measures }

unfoldable pub new_entry : CounterMeasure → Entry
new_entry cm = record {
  name = cm.spec.on_event.event_name;
  counter_measure = cm;
  running = false;
  last_runs = [];
}

-- The part of `Add` under its own lock, after the entry is made.
unfoldable pub deploy : ActionState → CounterMeasure → ActionState
unfolding new_entry to_key
deploy s cm = record { measures = insert (to_key cm.object_meta) (new_entry cm) s.measures }

-- `Add` locks twice: `Remove` lets its lock go before the entry is stored. The two parts are one step
-- where no other call comes between; State/Calls lets them.
unfoldable pub add : ActionState → CounterMeasure → ActionState
unfolding remove deploy to_key
add s cm = deploy (remove s (to_key cm.object_meta).namespaced_name) cm

-- `suppressedUntil.Before(currentTime)`.
unfoldable pub drop_expired : ℤ → Map Text ℤ → Map Text ℤ
drop_expired now [] = []
drop_expired now ((k, until) ∷ m) =
    let rest = drop_expired now m in if lt_ℤ until now then rest else (k, until) ∷ rest

unfoldable pub clear_expired_last_runs : Entry → ℤ → Entry
unfolding drop_expired
clear_expired_last_runs e now = record e { last_runs = drop_expired now e.last_runs }

-- The entry, if it is there, after its housekeeping.
unfoldable pub get_counter_measure : ActionState → ObjectKey → ℤ → Option Entry × ActionState
unfolding clear_expired_last_runs
get_counter_measure s key now = elim (lookup key s.measures) [
  | none ↦ (none, s)
  | some entry ↦ (
    some (clear_expired_last_runs entry now),
    record { measures = insert key (clear_expired_last_runs entry now) s.measures },
  )
]

-- `suppressedUntil.After(time.Now())`, where there is such a time.
unfoldable pub within : Option ℤ → ℤ → Bool
within none now = false
within (some until) now = lt_ℤ now until

unfoldable pub is_suppressed : Entry → Event → ℤ → Bool
unfolding within
is_suppressed e event now = e.running || within (lookup (Events.key event) e.last_runs) now
