-- ===== src/Controller/Reconciling.antt =====
-- controllers/countermeasure/countermeasure_controller.go: what a reconciliation does to the manager.
use k8s_countermeasures.Prelude.{
  Option, none, some, true, false, ◌&&◌, not, ◌==◌, ==_refl, ◌≡◌, sym, ap, ◌∙◌, ◌⊎◌, inl, inr,
  arith, Option-cases, Bool-cases,
}
use k8s_countermeasures.Prelude.Int.{pos}
use k8s_countermeasures.Manager.{NamespacedName, ObjectMeta, namespaced_name_eq}
use k8s_countermeasures.Outcome.{Outcome, Error, ok, err, Outcome-cases}
use k8s_countermeasures.Api.Types.{CounterMeasure, LabelSelector}
use k8s_countermeasures.Api.Validation.{Aggregates, validate_spec}
use k8s_countermeasures.EventBus.Bus.Invariant
use k8s_countermeasures.Actions.Manager.{Manager, add, remove, exists}
use k8s_countermeasures.Actions.Manager.Installing.{name_of, add_installs, remove_removes}
use k8s_countermeasures.Actions.Perform.{is_not_found}
use k8s_countermeasures.Actions.Runner.{Retry}
use k8s_countermeasures.Controller.{mark_initializing, install, reconcile}
use k8s_countermeasures.Status.{Resources, Served}

module _ (r : Resources CounterMeasure) (retry_success : Retry r.World)
    (retry_error : Retry (Error × Served r.World))
    (retry_initializing : Retry (CounterMeasure × r.World)) (agg : Aggregates)
    (select_sources : LabelSelector → Option Error) where
  abbrev manager_after : NamespacedName → Manager → Served r.World → Manager
  manager_after name m s =
      (reconcile r retry_success retry_error retry_initializing agg select_sources name m s).1.0

  -- What a reconciliation may do to the manager.
  pub data Changed (name : NamespacedName) (s : Served r.World) (m m' : Manager) : Type 0 where
    unchanged : m' ≡ m → Changed name s m m'
    gone :
        (e : Error)
        → r.get name s.world ≡ err e
        → is_not_found e ≡ true
        → remove m name ≡ some m'
        → Changed name s m m'
    installed :
        (found cm : CounterMeasure)
        → r.get name s.world ≡ ok found
        → exists m found.object_meta ≡ false
        → validate_spec agg cm.spec ≡ none
        → add select_sources m cm ≡ ok m'
        → Changed name s m m'

  abbrev manager_installed : CounterMeasure → Manager → Served r.World → Manager
  manager_installed cm m s =
      (install r retry_success retry_error retry_initializing agg select_sources cm m s).1.0

  install_cases :
      (cm : CounterMeasure) (m : Manager) (s : Served r.World)
      → (manager_installed cm m s ≡ m)
        ⊎ ((validate_spec agg cm.spec ≡ none)
            × (add select_sources m cm ≡ ok (manager_installed cm m s)))
  unfolding install
  install_cases cm m s = elim (Option-cases (validate_spec agg cm.spec)) [
    | inr (e, v) ↦ inl (ground (arith, v))
    | inl v ↦ elim (Outcome-cases (add select_sources m cm)) [
      | inl (m', a) ↦ inr (v, ground (arith, v, a))
      | inr (inl (e, a)) ↦ inl (ground (arith, v, a))
      | inr (inr a) ↦ inl (ground (arith, v, a))
    ]
  ]

  abbrev marked : CounterMeasure → Served r.World → Outcome (Unit {0}) × (CounterMeasure × r.World)
  marked cm s = mark_initializing r retry_success retry_error retry_initializing cm s.world

  reconcile_new :
      (name : NamespacedName) (m : Manager) (s : Served r.World) (found : CounterMeasure)
      → r.get name s.world ≡ ok found
      → exists m found.object_meta ≡ false
      → (manager_after name m s ≡ m)
        ⊎ (manager_after name m s
            ≡ manager_installed (marked found s).1.0 m (record s { world = (marked found s).1.1 }))
  unfolding reconcile
  reconcile_new name m s found g new = elim (Outcome-cases (marked found s).0) [
    | inl (u, o) ↦ inr (ground (arith, g, new, o))
    | inr (inl (e, o)) ↦ inl (ground (arith, g, new, o))
    | inr (inr o) ↦ inl (ground (arith, g, new, o))
  ]

  reconcile_known :
      (name : NamespacedName) (m : Manager) (s : Served r.World) (found : CounterMeasure)
      → r.get name s.world ≡ ok found
      → exists m found.object_meta ≡ true
      → manager_after name m s ≡ m
  unfolding reconcile
  reconcile_known name m s found g old = ground (arith, g, old)

  reconcile_error :
      (name : NamespacedName) (m : Manager) (s : Served r.World) (e : Error)
      → r.get name s.world ≡ err e
      → Changed name s m (manager_after name m s)
  unfolding reconcile
  reconcile_error name m s e g = elim (Bool-cases (is_not_found e)) [
    | inr other ↦ unchanged (ground (arith, g, other))
    | inl lost ↦ elim (Option-cases (remove m name)) [
      | inl x ↦ unchanged (ground (arith, g, lost, x))
      | inr (m', x) ↦ gone e g lost (ground (arith, g, lost, x))
    ]
  ]

  installed_or_not :
      (name : NamespacedName) (m : Manager) (s : Served r.World) (found : CounterMeasure)
      → r.get name s.world ≡ ok found
      → exists m found.object_meta ≡ false
      → Changed name s m (manager_after name m s)
  installed_or_not name m s found g new = elim (reconcile_new name m s found g new) [
    | inl same ↦ unchanged same
    | inr e ↦
        let cm = (marked found s).1.0 in
        let s' : Served r.World = record s { world = (marked found s).1.1 } in
        elim (install_cases cm m s') [
          | inl same ↦ unchanged (e ∙ same)
          | inr (v, a) ↦ installed found cm g new v (a ∙ ap ok (sym e))
        ]
  ]

  -- Whatever the API server answers, a reconciliation leaves the manager as it was, or removes the
  -- name that the server does not find, or installs one countermeasure, which has passed the
  -- validation, where the resource that was found is not installed.
  pub reconcile-Changed :
      (name : NamespacedName) (m : Manager) (s : Served r.World)
      → Changed name s m
          (reconcile r retry_success retry_error retry_initializing agg select_sources name m s).1.0
  reconcile-Changed name m s = elim (Outcome-cases (r.get name s.world)) [
    | inl (found, g) ↦ elim (Bool-cases (exists m found.object_meta)) [
      | inl old ↦ unchanged (reconcile_known name m s found g old)
      | inr new ↦ installed_or_not name m s found g new
    ]
    | inr (inl (e, g)) ↦ reconcile_error name m s e g
    | inr (inr g) ↦ unchanged (unfold reconcile in ground (arith, g))
  ]

  -- The reconciliation of a name that the server does not find succeeds, on a valid bus, and takes
  -- exactly that name away.
  pub reconcile_gone :
      (name : NamespacedName) (m : Manager) (s : Served r.World) (e : Error)
      → r.get name s.world ≡ err e
      → is_not_found e ≡ true
      → Invariant.IsValid m.bus
      → (m' : Manager) × (reconcile r retry_success retry_error retry_initializing agg
            select_sources name m s
          ≡ (ok (pos 0), (m', s)))
        × Invariant.IsValid m'.bus
        × ((meta : ObjectMeta) → exists m' meta ≡ (exists m meta && not (name_of meta == name)))
  unfolding reconcile
  reconcile_gone name m s e g lost v =
      let (m', x, v', all, _) = remove_removes m name v in (m', ground (arith, g, lost, x), v', all)

  -- Once a countermeasure is installed, the reconciliation of any other generation of it, whatever its
  -- specification is, leaves the manager as it was.
  pub new_generation_ignored :
      (name : NamespacedName) (m m' : Manager) (s : Served r.World) (cm found : CounterMeasure)
      → Invariant.IsValid m.bus
      → add select_sources m cm ≡ ok m'
      → r.get name s.world ≡ ok found
      → name_of cm.object_meta ≡ name_of found.object_meta
      → (reconcile r retry_success retry_error retry_initializing agg select_sources name m' s).1.0
        ≡ m'
  new_generation_ignored name m m' s cm found v a g same = reconcile_known name m' s found g (
      ground (
        arith,
        (add_installs select_sources m m' cm v a).1 found.object_meta,
        ==_refl (name_of found.object_meta),
      ))
