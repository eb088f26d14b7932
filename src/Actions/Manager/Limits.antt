-- ===== src/Actions/Manager/Limits.antt =====
-- A description of the rounds of a countermeasure (pkg/actions/manager.go, the goroutine of Add) that
-- knows neither the state nor its housekeeping: for each key, until when its events are skipped. How an
-- entry of the state stands for such limits.
use k8s_countermeasures.Prelude.{
  Text, text_eq, ◌==◌, lookup, insert, DistinctKeys, lookup-insert, lookup-insert_self, Option,
  none, some, List, [], ◌∷◌, Bool, true, false, ◌≡◌, refl, ◌∙◌, arith, inl, inr, Option-cases,
  if◌then◌else◌,
}
use k8s_countermeasures.Prelude.Int.{ℤ, ◌+ℤ◌, ◌≤ℤ◌, lt_ℤ}
use k8s_countermeasures.Manager.{ObjectKey, object_key_eq}
use k8s_countermeasures.Events.{Event}
use k8s_countermeasures.Events
use k8s_countermeasures.Api.Types.{CounterMeasure}
use k8s_countermeasures.State.{
  ActionState, Entry, is_suppressed, within, clear_expired_last_runs, record_run, policy_duration,
}
use k8s_countermeasures.State.Suppression.{duration_of, ran, run_state, lookup-drop_expired}
use k8s_countermeasures.State.Validity.{clear-DistinctKeys, record_run-DistinctKeys}
use k8s_countermeasures.Actions.Cluster.{Cluster}
use k8s_countermeasures.Actions.Perform.{Action}
use k8s_countermeasures.Actions.Registry.{Registry}
use k8s_countermeasures.Actions.Runner.{Retry, RunState, run}
use k8s_countermeasures.Actions.Manager.{Round, skip}

-- Until when the events with a key are skipped, if they are.
abbrev pub Limits : Type 0
Limits = Text → Option ℤ

-- A limit that is still ahead.
abbrev pub is_ahead : Option ℤ → ℤ → Bool
is_ahead none now = false
is_ahead (some limit) now = lt_ℤ now limit

abbrev pub limited : Option ℤ → Text → ℤ → Limits → Limits
limited none key now limits = limits
limited (some d) key now limits = λ k. if key == k then some (now +ℤ d) else limits k

-- The clock does not go back, within a round and from one round to the next.
abbrev pub InOrder : ℤ → List Round → Type 0
InOrder t [] = Unit {0}
InOrder t (r ∷ rounds) = (t ≤ℤ r.found) × (r.found ≤ℤ r.checked) × InOrder r.found rounds

module _ (c : Cluster) (retry : Retry c.World) (registry : Registry) (cm : CounterMeasure)
    (xs : List Action) where
  -- Each event is skipped until the limit of its key. After that the actions are performed, and the
  -- policy's duration, if there is one, is the next limit.
  abbrev pub throttled : Limits → List Round → RunState c.World → Option (RunState c.World)
  throttled limits [] rs = some rs
  throttled limits (r ∷ rounds) rs = elim (is_ahead (limits (Events.key r.event)) r.checked) [
    | true ↦ throttled limits rounds (skip c retry registry rs)
    | false ↦ elim (run c retry cm r.event xs rs) [
      | none ↦ none
      | some rs' ↦
          throttled
            (limited (policy_duration cm.spec.on_event.suppression_policy) (Events.key r.event)
              r.started limits)
            rounds rs'
    ]
  ]

-- An entry that is deployed, idle, and stands for the limits from a time on.
pub record Tracks (s : ActionState) (key : ObjectKey) (e : Entry) (limits : Limits) (t : ℤ)
    : Type 0 where
  pub there : lookup key s.measures ≡ some e
  pub idle : e.running ≡ false
  pub distinct : DistinctKeys e.last_runs
  pub agrees :
      (k : Text) (now : ℤ) → t ≤ℤ now → within (lookup k e.last_runs) now ≡ is_ahead (limits k) now

pub is_suppressed-limits :
    (s : ActionState) (key : ObjectKey) (e : Entry) (limits : Limits) (t now : ℤ) (event : Event)
    → Tracks s key e limits t
    → t ≤ℤ now
    → is_suppressed e event now ≡ is_ahead (limits (Events.key event)) now
unfolding is_suppressed
is_suppressed-limits s key e limits t now event h le =
    ground (arith, h.idle, h.agrees (Events.key event) now le)

pub le_trans : (a b c : ℤ) → a ≤ℤ b → b ≤ℤ c → a ≤ℤ c
le_trans a b c h k = omega arith

abbrev pub tidy : ActionState → ObjectKey → Entry → ℤ → ActionState
tidy s key e now = record { measures = insert key (clear_expired_last_runs e now) s.measures }

pub tidy-Tracks :
    (s : ActionState) (key : ObjectKey) (e : Entry) (limits : Limits) (t now : ℤ)
    → Tracks s key e limits t
    → t ≤ℤ now
    → Tracks (tidy s key e now) key (clear_expired_last_runs e now) limits now
unfolding clear_expired_last_runs
tidy-Tracks s key e limits t now h le = record {
  there = lookup-insert_self key (clear_expired_last_runs e now) s.measures;
  idle = h.idle;
  distinct = clear-DistinctKeys e now h.distinct;
  agrees = λ k later le'.
      lookup-drop_expired k now later e.last_runs h.distinct le'
      ∙ h.agrees k later (le_trans t now later le le');
}

pub ran-counter_measure :
    (e : Entry) (event : Event) (now : ℤ) → (ran e event now).counter_measure ≡ e.counter_measure
unfolding record_run
ran-counter_measure e event now = ground arith

pub ran-within :
    (e : Entry) (event : Event) (started later : ℤ) (limits : Limits) (k : Text)
    → within (lookup k e.last_runs) later ≡ is_ahead (limits k) later
    → within (lookup k (ran e event started).last_runs) later
      ≡ is_ahead (limited (duration_of e) (Events.key event) started limits k) later
unfolding record_run within
ran-within e event started later limits k h = elim (Option-cases (duration_of e)) [
  | inl free ↦ ground (arith, free, h)
  | inr (d, policy) ↦
      ground (arith, policy, h, lookup-insert (Events.key event) k (started +ℤ d) e.last_runs)
]

pub run-Tracks :
    (s : ActionState) (key : ObjectKey) (e : Entry) (limits : Limits) (t started : ℤ)
    (event : Event) (d : Option ℤ)
    → duration_of e ≡ d
    → Tracks s key e limits t
    → Tracks
        (run_state s e event key started)
        key
        (ran e event started)
        (limited d (Events.key event) started limits)
        t
run-Tracks s key e limits t started event d policy h = record {
  there = lookup-insert_self key _ _;
  idle = refl;
  distinct = record_run-DistinctKeys e event started h.distinct;
  agrees =
      λ k later le. rw policy at (ran-within e event started later limits k (h.agrees k later le));
}
