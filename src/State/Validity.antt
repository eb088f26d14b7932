-- ===== src/State/Validity.antt =====
-- pkg/actions/state/state.go: the invariant of the state, and the methods that keep it.
use k8s_countermeasures.Prelude.{
  Text, text_eq, Map, lookup, insert, DistinctKeys, lookup-insert, lookup-delete_where,
  insert-DistinctKeys, delete_where-DistinctKeys, ◌==◌, ==_iff, if◌then◌else◌, none, some, [], ◌∷◌,
  true, ◌≡◌, refl, sym, subst, ◌∙◌, inl, inr, arith, Option-cases, Bool-cases,
}
use k8s_countermeasures.Prelude.Int.{ℤ}
use k8s_countermeasures.Manager.{
  NamespacedName, ObjectKey, namespaced_name_eq, object_key_eq, to_key, namespaced_name_beq_iff,
  object_key_beq_iff,
}
use k8s_countermeasures.Events.{Event}
use k8s_countermeasures.Api.Types.{CounterMeasure}
use k8s_countermeasures.State.{
  Entry, ActionState, new_state, is_deployed, remove, deploy, new_entry, record_run,
  clear_expired_last_runs, drop_expired, policy_duration,
}
use k8s_countermeasures.State.Deployment.{is_deployed-remove}

-- What holds of every entry: it stands under the key of its countermeasure, and its times are a map.
pub record EntryIsValid (key : ObjectKey) (e : Entry) : Type 0 where
  pub keyed : to_key e.counter_measure.object_meta ≡ key
  pub named : e.name ≡ e.counter_measure.spec.on_event.event_name
  pub distinct : DistinctKeys e.last_runs

pub record IsValid (s : ActionState) : Type 0 where
  pub distinct : DistinctKeys s.measures
  pub entries : (key : ObjectKey) (e : Entry) → lookup key s.measures ≡ some e → EntryIsValid key e
  -- one generation of each name
  pub single :
      (k j : ObjectKey)
      → is_deployed s k ≡ true
      → is_deployed s j ≡ true
      → k.namespaced_name ≡ j.namespaced_name
      → k ≡ j

pub new_state-IsValid : IsValid new_state
unfolding new_state is_deployed lookup
new_state-IsValid = record { distinct = tt; entries = λ key e h. cc; single = λ k j h. cc }

lookup-remove :
    (s : ActionState) (name : NamespacedName) (key : ObjectKey)
    → lookup key (remove s name).measures
      ≡ (if key.namespaced_name == name then none else lookup key s.measures)
unfolding remove
lookup-remove s name key = lookup-delete_where (λ k. k.namespaced_name == name) key s.measures

pub remove-IsValid : (s : ActionState) (name : NamespacedName) → IsValid s → IsValid (remove s name)
remove-IsValid s name v = record {
  distinct = unfold remove in delete_where-DistinctKeys _ s.measures v.distinct;
  entries = λ key e h. v.entries key e (ground (arith, lookup-remove s name key));
  single = λ k j hk hj.
      v.single k j (ground (arith, is_deployed-remove s name k))
        (ground (arith, is_deployed-remove s name j));
}

new_entry-EntryIsValid : (cm : CounterMeasure) → EntryIsValid (to_key cm.object_meta) (new_entry cm)
unfolding new_entry
new_entry-EntryIsValid cm = record { keyed = refl; named = refl; distinct = tt }

lookup-deploy :
    (s : ActionState) (cm : CounterMeasure) (key : ObjectKey)
    → lookup key (deploy s cm).measures
      ≡ (if to_key cm.object_meta == key then some (new_entry cm) else lookup key s.measures)
unfolding deploy
lookup-deploy s cm key = lookup-insert (to_key cm.object_meta) key (new_entry cm) s.measures

-- No generation of the name is deployed.
abbrev pub IsFree : ActionState → NamespacedName → Type 0
IsFree s name = (key : ObjectKey) → key.namespaced_name ≡ name → lookup key s.measures ≡ none

pub remove-IsFree : (s : ActionState) (name : NamespacedName) → IsFree (remove s name) name
remove-IsFree s name key h =
    ground (arith, lookup-remove s name key, (namespaced_name_beq_iff key.namespaced_name name).1 h)

pub deploy-IsValid :
    (s : ActionState) (cm : CounterMeasure)
    → IsFree s (to_key cm.object_meta).namespaced_name
    → IsValid s
    → IsValid (deploy s cm)
deploy-IsValid s cm free v = record {
  distinct = unfold deploy in insert-DistinctKeys _ _ s.measures v.distinct;
  entries = λ key e h. elim (Bool-cases (to_key cm.object_meta == key)) [
    | inl same ↦
        let at : to_key cm.object_meta ≡ key = (==_iff (to_key cm.object_meta) key).0 same in
        let is : new_entry cm ≡ e = ground (arith, lookup-deploy s cm key) in
        subst (λ k. EntryIsValid k e) at
          (subst (EntryIsValid (to_key cm.object_meta)) is (new_entry-EntryIsValid cm))
    | inr other ↦ v.entries key e (ground (arith, lookup-deploy s cm key))
  ];
  single = λ k j hk hj same.
      unfold is_deployed in
      ground (
        arith,
        lookup-deploy s cm k,
        lookup-deploy s cm j,
        object_key_beq_iff (to_key cm.object_meta) k,
        object_key_beq_iff (to_key cm.object_meta) j,
        free k,
        free j,
        v.single k j,
      );
}

abbrev pub write : ActionState → ObjectKey → Entry → ActionState
write s key e = record { measures = insert key e s.measures }

is_deployed-write :
    (s : ActionState) (key : ObjectKey) (e e' : Entry) (k : ObjectKey)
    → lookup key s.measures ≡ some e
    → is_deployed (write s key e') k ≡ is_deployed s k
unfolding is_deployed
is_deployed-write s key e e' k h =
    ground (arith, h, lookup-insert key k e' s.measures, ==_iff key k)

-- To write a valid entry under a key that is deployed keeps the state valid.
pub write-IsValid :
    (s : ActionState) (key : ObjectKey) (e e' : Entry)
    → lookup key s.measures ≡ some e
    → EntryIsValid key e'
    → IsValid s
    → IsValid (write s key e')
write-IsValid s key e e' h ve v = record {
  distinct = insert-DistinctKeys key e' s.measures v.distinct;
  entries = λ k x hx. elim (Bool-cases (key == k)) [
    | inl same ↦
        let at : key ≡ k = (==_iff key k).0 same in
        let is : e' ≡ x = ground (arith, lookup-insert key k e' s.measures) in
        subst (λ i. EntryIsValid i x) at (subst (EntryIsValid key) is ve)
    | inr other ↦ v.entries k x (ground (arith, lookup-insert key k e' s.measures))
  ];
  single = λ k j hk hj.
      v.single k j (sym (is_deployed-write s key e e' k h) ∙ hk)
        (sym (is_deployed-write s key e e' j h) ∙ hj);
}

pub write-IsFree :
    (s : ActionState) (key : ObjectKey) (e e' : Entry) (name : NamespacedName)
    → lookup key s.measures ≡ some e
    → IsFree s name
    → IsFree (write s key e') name
write-IsFree s key e e' name h free k same =
    ground (arith, h, lookup-insert key k e' s.measures, ==_iff key k, free k same)

lookup-drop_expired-none :
    (k : Text) (now : ℤ) (m : Map Text ℤ) → lookup k m ≡ none → lookup k (drop_expired now m) ≡ none
unfolding lookup drop_expired
lookup-drop_expired-none k now [] h = refl
lookup-drop_expired-none k now ((j, u) ∷ m) h = ground (arith, lookup-drop_expired-none k now m)

pub drop_expired-DistinctKeys :
    (now : ℤ) (m : Map Text ℤ) → DistinctKeys m → DistinctKeys (drop_expired now m)
unfolding drop_expired
drop_expired-DistinctKeys now [] h = tt
drop_expired-DistinctKeys now ((j, u) ∷ m) h =
    ground (arith, drop_expired-DistinctKeys now m h.1, lookup-drop_expired-none j now m h.0)

pub clear-EntryIsValid :
    (key : ObjectKey) (e : Entry) (now : ℤ)
    → EntryIsValid key e
    → EntryIsValid key (clear_expired_last_runs e now)
unfolding clear_expired_last_runs
clear-EntryIsValid key e now v = record {
  keyed = v.keyed;
  named = v.named;
  distinct = drop_expired-DistinctKeys now e.last_runs v.distinct;
}

pub record_run-EntryIsValid :
    (key : ObjectKey) (e : Entry) (event : Event) (now : ℤ)
    → EntryIsValid key e
    → EntryIsValid key (record_run e event now)
unfolding record_run
record_run-EntryIsValid key e event now v =
    elim (Option-cases (policy_duration e.counter_measure.spec.on_event.suppression_policy)) [
      | inl h ↦
          rw (h, record_run) (record { keyed = v.keyed; named = v.named; distinct = v.distinct })
      | inr (d, h) ↦
          rw (h, record_run)
            (record {
              keyed = v.keyed;
              named = v.named;
              distinct = insert-DistinctKeys _ _ e.last_runs v.distinct;
            })
    ]

-- The times of an entry stay a map through the housekeeping and through a run.
pub clear-DistinctKeys :
    (e : Entry) (now : ℤ)
    → DistinctKeys e.last_runs
    → DistinctKeys (clear_expired_last_runs e now).last_runs
unfolding clear_expired_last_runs
clear-DistinctKeys e now h = drop_expired-DistinctKeys now e.last_runs h

pub record_run-DistinctKeys :
    (e : Entry) (event : Event) (now : ℤ)
    → DistinctKeys e.last_runs
    → DistinctKeys (record_run e event now).last_runs
unfolding record_run
record_run-DistinctKeys e event now h =
    elim (Option-cases (policy_duration e.counter_measure.spec.on_event.suppression_policy)) [
      | inl p ↦ rw (p, record_run) h
      | inr (d, p) ↦ rw (p, record_run) (insert-DistinctKeys _ _ e.last_runs h)
    ]
