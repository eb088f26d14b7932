-- ===== src/State/Suppression.antt =====
-- When an event is suppressed: the life of an entry through a run, and the housekeeping of old times.
use k8s_countermeasures.Prelude.{
  Text, text_eq, Map, lookup, insert, DistinctKeys, lookup-insert, lookup-insert_self, ◌==◌, ==_iff,
  if◌then◌else◌, Option, none, some, [], ◌∷◌, true, false, ◌||◌, ◌≡◌, refl, ap, ◌∙◌, inl, inr,
  arith, Option-cases,
}
use k8s_countermeasures.Prelude.Int.{ℤ, ◌+ℤ◌, lt_ℤ, ◌≤ℤ◌}
use k8s_countermeasures.Manager.{ObjectKey, object_key_eq}
use k8s_countermeasures.Events.{Event}
use k8s_countermeasures.Events
use k8s_countermeasures.State.{
  Entry, ActionState, policy_duration, record_run, counter_measure_start, counter_measure_end,
  drop_expired, clear_expired_last_runs, get_counter_measure, within, is_suppressed, is_running,
}

abbrev pub duration_of : Entry → Option ℤ
duration_of e = policy_duration e.counter_measure.spec.on_event.suppression_policy

-- Until when an event is suppressed, by its key.
abbrev pub until : Entry → Event → Option ℤ
until e event = lookup (Events.key event) e.last_runs

-- The state after a run of the countermeasure for the event: started at `now`, and ended.
abbrev pub run : ActionState → Event → ObjectKey → ℤ → Option ActionState
run s event key now = elim (counter_measure_start s event key now) [
  | none ↦ none
  | some t ↦ counter_measure_end t key
]

-- What the entry is after that run.
abbrev pub ran : Entry → Event → ℤ → Entry
ran e event now = record (record_run e event now) { running = false }

abbrev pub run_state : ActionState → Entry → Event → ObjectKey → ℤ → ActionState
run_state s e event key now = record {
  measures = insert key (ran e event now) (insert key (record_run e event now) s.measures);
}

abbrev pub started : ActionState → Entry → Event → ObjectKey → ℤ → ActionState
started s e event key now = record { measures = insert key (record_run e event now) s.measures }

pub start_lem :
    (s : ActionState) (event : Event) (key : ObjectKey) (now : ℤ) (e : Entry)
    → lookup key s.measures ≡ some e
    → counter_measure_start s event key now ≡ some (started s e event key now)
unfolding counter_measure_start
start_lem s event key now e h = ground (arith, h)

pub end_lem :
    (s : ActionState) (event : Event) (key : ObjectKey) (now : ℤ) (e : Entry)
    → counter_measure_end (started s e event key now) key ≡ some (run_state s e event key now)
unfolding counter_measure_end
end_lem s event key now e =
    ground (arith, lookup-insert_self key (record_run e event now) s.measures)

run_lem :
    (s : ActionState) (event : Event) (key : ObjectKey) (now : ℤ) (e : Entry)
    → lookup key s.measures ≡ some e
    → run s event key now ≡ some (run_state s e event key now)
run_lem s event key now e h =
    ground (arith, start_lem s event key now e h, end_lem s event key now e)

pub ran-is_suppressed :
    (e : Entry) (event other : Event) (now later d : ℤ)
    → duration_of e ≡ some d
    → is_suppressed (ran e event now) other later ≡ (
        if Events.key event == Events.key other
        then lt_ℤ later (now +ℤ d)
        else within (until e other) later)
unfolding record_run is_suppressed
ran-is_suppressed e event other now later d hd =
    ground (arith, hd, lookup-insert (Events.key event) (Events.key other) (now +ℤ d) e.last_runs)

ran-is_suppressed-none :
    (e : Entry) (event other : Event) (now later : ℤ)
    → duration_of e ≡ none
    → is_suppressed (ran e event now) other later ≡ within (until e other) later
unfolding record_run is_suppressed
ran-is_suppressed-none e event other now later hd = ground (arith, hd)

-- A run of a countermeasure that is deployed succeeds and leaves its entry in the state. From then
-- on the entry suppresses an event exactly as long as its last recorded time is ahead. That time is
-- new, `now` plus the policy's duration, for the events with the key of the one that ran, and is as
-- before for all others.
pub suppression_after_run :
    (s : ActionState) (event : Event) (key : ObjectKey) (now d : ℤ) (e : Entry)
    → lookup key s.measures ≡ some e
    → duration_of e ≡ some d
    → (t : ActionState) × (e' : Entry) × (run s event key now ≡ some t)
      × (lookup key t.measures ≡ some e')
      × ((other : Event) (later : ℤ)
          → is_suppressed e' other later ≡ (
              if Events.key event == Events.key other
              then lt_ℤ later (now +ℤ d)
              else within (until e other) later))
suppression_after_run s event key now d e h hd = (
  run_state s e event key now,
  ran e event now,
  run_lem s event key now e h,
  lookup-insert_self key _ _,
  λ other later. ran-is_suppressed e event other now later d hd,
)

-- A countermeasure whose policy has no duration suppresses no more events after a run than before.
pub no_suppression_after_run :
    (s : ActionState) (event : Event) (key : ObjectKey) (now : ℤ) (e : Entry)
    → lookup key s.measures ≡ some e
    → duration_of e ≡ none
    → (t : ActionState) × (e' : Entry) × (run s event key now ≡ some t)
      × (lookup key t.measures ≡ some e')
      × ((other : Event) (later : ℤ) → is_suppressed e' other later ≡ within (until e other) later)
no_suppression_after_run s event key now e h hd = (
  run_state s e event key now,
  ran e event now,
  run_lem s event key now e h,
  lookup-insert_self key _ _,
  λ other later. ran-is_suppressed-none e event other now later hd,
)

record_run-running : (e : Entry) (event : Event) (now : ℤ) → (record_run e event now).running ≡ true
unfolding record_run
record_run-running e event now = ground arith

-- After its start a countermeasure is running, and its entry suppresses every event at every time.
pub suppressed_while_running :
    (s t : ActionState) (event other : Event) (key : ObjectKey) (now later : ℤ) (x : Entry)
    → counter_measure_start s event key now ≡ some t
    → lookup key t.measures ≡ some x
    → (is_running t key ≡ true) × (is_suppressed x other later ≡ true)
unfolding counter_measure_start is_running is_suppressed
suppressed_while_running s t event other key now later x h hx =
    elim (Option-cases (lookup key s.measures)) [
      | inl e ↦ absurd (ground (arith, e))
      | inr (e, he) ↦
          let found = lookup-insert_self key (record_run e event now) s.measures in
          let running = record_run-running e event now in
          (ground (arith, he, found, running), ground (arith, he, found, running))
    ]

lt_ℤ_trans : (a b c : ℤ) → lt_ℤ a b ≡ true → b ≤ℤ c → lt_ℤ c a ≡ false
lt_ℤ_trans a b c h k = ground arith

pub lookup-drop_expired :
    (k : Text) (now later : ℤ) (m : Map Text ℤ)
    → DistinctKeys m
    → now ≤ℤ later
    → within (lookup k (drop_expired now m)) later ≡ within (lookup k m) later
unfolding lookup drop_expired within
lookup-drop_expired k now later [] d h = refl
lookup-drop_expired k now later ((j, u) ∷ m) d h =
    ground (arith, ==_iff j k, lookup-drop_expired k now later m d.1 h, lt_ℤ_trans u now later)

pub get_lem :
    (s : ActionState) (key : ObjectKey) (now : ℤ) (e : Entry)
    → lookup key s.measures ≡ some e
    → get_counter_measure s key now ≡ (
      some (clear_expired_last_runs e now),
      record { measures = insert key (clear_expired_last_runs e now) s.measures },
    )
unfolding get_counter_measure
get_lem s key now e h = ground (arith, h)

pub clear-is_suppressed :
    (e : Entry) (event : Event) (now later : ℤ)
    → DistinctKeys e.last_runs
    → now ≤ℤ later
    → is_suppressed (clear_expired_last_runs e now) event later ≡ is_suppressed e event later
unfolding clear_expired_last_runs is_suppressed
clear-is_suppressed e event now later d le =
    ap (λ b. e.running || b) (lookup-drop_expired (Events.key event) now later e.last_runs d le)

-- The housekeeping of `GetCounterMeasure` frees memory and nothing else: at its own time and at
-- every later one the entry that it returns suppresses the same events as the entry in the state.
pub get_counter_measure-is_suppressed :
    (s : ActionState) (key : ObjectKey) (now later : ℤ) (e : Entry) (event : Event)
    → lookup key s.measures ≡ some e
    → DistinctKeys e.last_runs
    → now ≤ℤ later
    → (e' : Entry) × ((get_counter_measure s key now).0 ≡ some e')
      × (lookup key (get_counter_measure s key now).1.measures ≡ some e')
      × (is_suppressed e' event later ≡ is_suppressed e event later)
get_counter_measure-is_suppressed s key now later e event h d le = (
  clear_expired_last_runs e now,
  ap (λ r. r.0) (get_lem s key now e h),
  ap (λ r. lookup key r.1.measures) (get_lem s key now e h)
      ∙ lookup-insert_self key (clear_expired_last_runs e now) s.measures,
  clear-is_suppressed e event now later d le,
)
