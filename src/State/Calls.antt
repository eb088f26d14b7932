-- ===== src/State/Calls.antt =====
-- pkg/actions/state/state.go: every interleaving of calls keeps the invariant. `Add` takes the lock
-- twice, so that other calls can come between its removal and its insertion. The adds and removals do
-- not overlap: pkg/actions/manager.go makes them while it holds `consumersMux`. The goroutines that
-- handle events do not hold it, and their calls come at any time.
use k8s_countermeasures.Prelude.{
  text_eq, lookup, Option, none, some, false, ◌≡◌, refl, sym, subst, inl, inr, arith, Option-cases,
  some_inj,
}
use k8s_countermeasures.Prelude.Int.{ℤ}
use k8s_countermeasures.Manager.{
  NamespacedName, ObjectKey, namespaced_name_eq, object_key_eq, to_key,
}
use k8s_countermeasures.Events.{Event}
use k8s_countermeasures.Api.Types.{CounterMeasure}
use k8s_countermeasures.State.{
  ActionState, Entry, new_state, counter_measure_start, counter_measure_end, get_counter_measure,
  remove, deploy, record_run, clear_expired_last_runs,
}
use k8s_countermeasures.State.Validity.{
  IsValid, new_state-IsValid, remove-IsValid, write-IsValid, write, clear-EntryIsValid,
  record_run-EntryIsValid, EntryIsValid, IsFree, remove-IsFree, deploy-IsValid, write-IsFree,
}

-- The state, and the countermeasure of an `Add` that is between its two parts, if there is one.
pub record Shared : Type 0 where
  pub state : ActionState
  pub adding : Option CounterMeasure

abbrev pub begin : Shared
begin = record { state = new_state; adding = none }

-- A method that writes the state, or panics.
abbrev pub with_state : Shared → Option ActionState → Option Shared
with_state s none = none
with_state s (some t) = some (record s { state = t })

-- A step ends in a state, or in a panic.
pub data Step (s : Shared) : Option Shared → Type 0 where
  clears :
      (cm : CounterMeasure)
      → s.adding ≡ none
      → Step s (
          some (record {
            state = remove s.state (to_key cm.object_meta).namespaced_name;
            adding = some cm;
          }))
  deploys :
      (cm : CounterMeasure)
      → s.adding ≡ some cm
      → Step s (some (record { state = deploy s.state cm; adding = none }))
  removes :
      (name : NamespacedName)
      → s.adding ≡ none
      → Step s (some (record s { state = remove s.state name }))
  gets :
      (key : ObjectKey) (now : ℤ)
      → Step s (some (record s { state = (get_counter_measure s.state key now).1 }))
  starts :
      (event : Event) (key : ObjectKey) (now : ℤ)
      → Step s (with_state s (counter_measure_start s.state event key now))
  ends : (key : ObjectKey) → Step s (with_state s (counter_measure_end s.state key))

pub data Steps (s : Shared) : Shared → Type 0 where
  here : Steps s s
  next : {t u : Shared} → Steps s t → Step t (some u) → Steps s u

-- The name of an `Add` that is under way is free until it is stored.
abbrev IsPrepared : Option CounterMeasure → ActionState → Type 0
IsPrepared none s = Unit {0}
IsPrepared (some cm) s = IsFree s (to_key cm.object_meta).namespaced_name

record IsKept (s : Shared) : Type 0 where
  valid : IsValid s.state
  prepared : IsPrepared s.adding s.state

-- What a call that is not an `Add` or a removal may do: nothing, or write one entry that is there.
data Writes (s : ActionState) : ActionState → Type 0 where
  nothing : Writes s s
  entry :
      (key : ObjectKey) (e e' : Entry)
      → lookup key s.measures ≡ some e
      → (EntryIsValid key e → EntryIsValid key e')
      → Writes s (write s key e')

get-Writes :
    (s : ActionState) (key : ObjectKey) (now : ℤ) → Writes s (get_counter_measure s key now).1
get-Writes s key now = elim (Option-cases (lookup key s.measures)) [
  | inl h ↦
      let same : s ≡ (get_counter_measure s key now).1 =
        unfold get_counter_measure in ground (arith, h) in
      subst (Writes s) same nothing
  | inr (e, h) ↦
      let written : write s key (clear_expired_last_runs e now)
          ≡ (get_counter_measure s key now).1 =
        unfold get_counter_measure in ground (arith, h) in
      subst (Writes s) written
        (entry key e (clear_expired_last_runs e now) h (clear-EntryIsValid key e now))
]

start-Writes :
    (s t : ActionState) (event : Event) (key : ObjectKey) (now : ℤ)
    → counter_measure_start s event key now ≡ some t
    → Writes s t
start-Writes s t event key now h = elim (Option-cases (lookup key s.measures)) [
  | inl e ↦ absurd (unfold counter_measure_start in ground (arith, e))
  | inr (x, e) ↦
      let written : write s key (record_run x event now) ≡ t =
        unfold counter_measure_start in ground (arith, e) in
      subst (Writes s) written
        (entry key x (record_run x event now) e (record_run-EntryIsValid key x event now))
]

stopped-EntryIsValid :
    (key : ObjectKey) (e : Entry)
    → EntryIsValid key e
    → EntryIsValid key (record e { running = false })
stopped-EntryIsValid key e v = record { keyed = v.keyed; named = v.named; distinct = v.distinct }

end-Writes : (s t : ActionState) (key : ObjectKey) → counter_measure_end s key ≡ some t → Writes s t
end-Writes s t key h = elim (Option-cases (lookup key s.measures)) [
  | inl e ↦ absurd (unfold counter_measure_end in ground (arith, e))
  | inr (x, e) ↦
      let written : write s key (record x { running = false }) ≡ t =
        unfold counter_measure_end in ground (arith, e) in
      subst (Writes s) written
        (entry key x (record x { running = false }) e (stopped-EntryIsValid key x))
]

Writes-IsValid : {s t : ActionState} → Writes s t → IsValid s → IsValid t
Writes-IsValid nothing v = v
Writes-IsValid {s} (entry key e e' h keeps) v =
    write-IsValid s key e e' h (keeps (v.entries key e h)) v

Writes-IsPrepared :
    (o : Option CounterMeasure) {s t : ActionState} → Writes s t → IsPrepared o s → IsPrepared o t
Writes-IsPrepared o nothing p = p
Writes-IsPrepared none (entry key e e' h keeps) p = tt
Writes-IsPrepared (some cm) {s} (entry key e e' h keeps) p =
    write-IsFree s key e e' (to_key cm.object_meta).namespaced_name h p

Writes-IsKept :
    (s : Shared) {t : ActionState} → Writes s.state t → IsKept s → IsKept (record s { state = t })
Writes-IsKept s w k = record {
  valid = Writes-IsValid w k.valid;
  prepared = Writes-IsPrepared s.adding w k.prepared;
}

with_state-IsKept :
    (s : Shared) (o : Option ActionState)
    → ((t : ActionState) → o ≡ some t → Writes s.state t)
    → IsKept s
    → (u : Shared) → with_state s o ≡ some u
    → IsKept u
with_state-IsKept s none w k u h = absurd (ground arith)
with_state-IsKept s (some t) w k u h = subst IsKept (some_inj h) (Writes-IsKept s (w t refl) k)

Step-IsKept :
    {s : Shared} {o : Option Shared} → Step s o → IsKept s → (u : Shared) → o ≡ some u → IsKept u
Step-IsKept {s} (clears cm idle) k u h = subst IsKept (some_inj h) (record {
  valid = remove-IsValid s.state (to_key cm.object_meta).namespaced_name k.valid;
  prepared = remove-IsFree s.state (to_key cm.object_meta).namespaced_name;
})
Step-IsKept {s} (deploys cm under_way) k u h = subst IsKept (some_inj h) (record {
  valid =
      deploy-IsValid s.state cm (subst (λ o. IsPrepared o s.state) under_way k.prepared) k.valid;
  prepared = tt;
})
Step-IsKept {s} (removes name idle) k u h = subst IsKept (some_inj h) (record {
  valid = remove-IsValid s.state name k.valid;
  prepared = subst (λ o. IsPrepared o (remove s.state name)) (sym idle) tt;
})
Step-IsKept {s} (gets key now) k u h =
    subst IsKept (some_inj h) (Writes-IsKept s (get-Writes s.state key now) k)
Step-IsKept {s} (starts event key now) k u h =
    with_state-IsKept s (counter_measure_start s.state event key now)
      (λ t. start-Writes s.state t event key now) k u h
Step-IsKept {s} (ends key) k u h =
    with_state-IsKept s (counter_measure_end s.state key) (λ t. end-Writes s.state t key) k u h

Steps-IsKept : {s t : Shared} → Steps s t → IsKept s → IsKept t
Steps-IsKept here k = k
Steps-IsKept (next {u = u} steps step) k = Step-IsKept step (Steps-IsKept steps k) u refl

-- Whatever calls are made of a new state, and however the calls of the goroutines come between them and
-- between the two parts of an `Add`, as long as the adds and removals do not overlap and none panics:
-- at most one generation of each countermeasure is deployed, each entry stands under the key of its
-- countermeasure with the name of its event, and no key stands twice.
pub new_state-Steps-IsValid : {t : Shared} → Steps begin t → IsValid t.state
new_state-Steps-IsValid steps =
    (Steps-IsKept steps (record { valid = new_state-IsValid; prepared = tt })).valid
