-- ===== src/Actions/Registry/Builds.antt =====
-- What the initialised registry builds, and that it builds every countermeasure that is admitted.
use k8s_countermeasures.Prelude.{
  codes, lookup, insert, Option, none, some, List, [], ◌∷◌, ◌++◌, Bool, ◌≡◌, refl, arith, subst,
  Option-cases, inl, inr,
}
use k8s_countermeasures.Outcome.{Outcome, Error, ok, err, failed, Outcome-cases}
use k8s_countermeasures.Api.Types.{
  ActionSpec, CounterMeasureSpec, DeleteSpec, PatchSpec, DebugSpec, RestartSpec,
}
use k8s_countermeasures.Api.Validation.{Aggregates, validate_spec}
use k8s_countermeasures.Api.Validation.Admission.{
  HasOneType, deletes, patches, debugs, restarts, AllHaveOneType, validate_spec_iff,
}
use k8s_countermeasures.Actions.Perform.{Action, base, new_base}
use k8s_countermeasures.Actions.Registry.{
  Registry, empty, initialize, create, new_runner, new_runner_loop, build_delete, build_patch,
  build_debug, build_restart,
}

abbrev pub registry : Registry
registry = initialize none empty

-- The first type that is set, in the order delete, patch, debug, restart.
abbrev pub first_type :
    ActionSpec
    → Bool
    → Option DeleteSpec
    → Option PatchSpec
    → Option DebugSpec
    → Option RestartSpec
    → Option Action
first_type a dry (some s) p b r = some (Action.delete (new_base a dry) s)
first_type a dry none (some s) b r = some (Action.patch (new_base a dry) s)
first_type a dry none none (some s) r = some (Action.debug (new_base a dry) s)
first_type a dry none none none (some s) = some (Action.restart (new_base a dry) s)
first_type a dry none none none none = none

abbrev pub built : ActionSpec → Bool → Option Action
built a dry = first_type a dry a.delete a.patch a.debug a.restart

abbrev pub misconfigured : ActionSpec → Error
misconfigured a = failed (
    codes "action '"
    ++ (a.name ++ codes "' is either mis-configured or using an unknown action type"))

abbrev pub or_misconfigured : ActionSpec → Option Action → Outcome Action
or_misconfigured a none = err (misconfigured a)
or_misconfigured a (some x) = ok x

-- Every action is created from the first of its types that is set, in the order delete, patch,
-- debug, restart, under its own name and retry flag and the countermeasure's dry-run flag; an
-- action with no type is an error.
pub create_lem :
    (a : ActionSpec) (dry : Bool) → create registry a dry ≡ or_misconfigured a (built a dry)
unfolding create initialize lookup insert build_delete build_patch build_debug build_restart
create_lem a dry = ground arith

-- The actions of a runner are those of the specification, in its order.
abbrev pub AreBuilt : Bool → List ActionSpec → List Action → Type 0
AreBuilt dry [] [] = Unit
AreBuilt dry [] (x ∷ xs) = ⊥
AreBuilt dry (a ∷ l) [] = ⊥
AreBuilt dry (a ∷ l) (x ∷ xs) = (built a dry ≡ some x) × AreBuilt dry l xs

built_of_one_type :
    (a : ActionSpec) (dry : Bool) → HasOneType a → (x : Action) × (built a dry ≡ some x)
built_of_one_type a dry (deletes s d p b r) = (Action.delete (new_base a dry) s, ground (arith, d))
built_of_one_type a dry (patches s d p b r) =
    (Action.patch (new_base a dry) s, ground (arith, d, p))
built_of_one_type a dry (debugs s d p b r i) =
    (Action.debug (new_base a dry) s, ground (arith, d, p, b))
built_of_one_type a dry (restarts s d p b r) =
    (Action.restart (new_base a dry) s, ground (arith, d, p, b, r))

runner_of_typed :
    (dry : Bool) (l : List ActionSpec)
    → AllHaveOneType l
    → (xs : List Action) × (new_runner_loop registry dry l ≡ ok xs) × AreBuilt dry l xs
unfolding new_runner_loop
runner_of_typed dry [] h = ([], refl, tt)
runner_of_typed dry (a ∷ l) h =
    let (x, hx) = built_of_one_type a dry h.0 in
    let (xs, hl, all) = runner_of_typed dry l h.1 in
    (x ∷ xs, ground (arith, create_lem a dry, hx, hl), (hx, all))

-- Every countermeasure that is admitted gets a runner, with one action for each of its actions, in
-- their order, of the type that is set; this wants a client for the debug actions.
pub new_runner_of_admitted :
    (agg : Aggregates) (spec : CounterMeasureSpec)
    → validate_spec agg spec ≡ none
    → (xs : List Action) × (new_runner registry spec ≡ ok xs)
      × AreBuilt spec.dry_run spec.actions xs
unfolding new_runner
new_runner_of_admitted agg spec h =
    runner_of_typed spec.dry_run spec.actions ((validate_spec_iff agg spec).0 h).typed

-- A runner that was built has the specification's actions, whether it was validated or not.
runner_of_ok :
    (dry : Bool) (l : List ActionSpec) (xs : List Action)
    → new_runner_loop registry dry l ≡ ok xs
    → AreBuilt dry l xs
unfolding new_runner_loop
runner_of_ok dry [] [] h = tt
runner_of_ok dry [] (x ∷ xs) h = ground arith
runner_of_ok dry (a ∷ l) xs h = elim (Option-cases (built a dry)) [
  | inl e ↦ absurd (ground (arith, create_lem a dry, e))
  | inr (x, e) ↦ elim (Outcome-cases (new_runner_loop registry dry l)) [
    | inl (ys, hl) ↦
        let whole : x ∷ ys ≡ xs = ground (arith, create_lem a dry, e, hl) in
        subst (AreBuilt dry (a ∷ l)) whole (e, runner_of_ok dry l ys hl)
    | inr (inl (m, hl)) ↦ absurd (ground (arith, create_lem a dry, e, hl))
    | inr (inr hl) ↦ absurd (ground (arith, create_lem a dry, e, hl))
  ]
]

first_type-dry_run :
    (a : ActionSpec) (dry : Bool) (d : Option DeleteSpec) (p : Option PatchSpec)
    (b : Option DebugSpec) (r : Option RestartSpec) (x : Action)
    → first_type a dry d p b r ≡ some x
    → (base x).dry_run ≡ dry
unfolding new_base
first_type-dry_run a dry d p b r x h = ground arith

-- Every action of a runner has the countermeasure's dry-run flag.
abbrev pub AllDryRun : Bool → List Action → Type 0
AllDryRun dry [] = Unit {0}
AllDryRun dry (x ∷ xs) = ((base x).dry_run ≡ dry) × AllDryRun dry xs

built-AllDryRun :
    (dry : Bool) (l : List ActionSpec) (xs : List Action) → AreBuilt dry l xs → AllDryRun dry xs
built-AllDryRun dry [] [] h = tt
built-AllDryRun dry [] (x ∷ xs) h = absurd h
built-AllDryRun dry (a ∷ l) [] h = absurd h
built-AllDryRun dry (a ∷ l) (x ∷ xs) h = (
  first_type-dry_run a dry a.delete a.patch a.debug a.restart x h.0,
  built-AllDryRun dry l xs h.1,
)

pub new_runner-AllDryRun :
    (spec : CounterMeasureSpec) (xs : List Action)
    → new_runner registry spec ≡ ok xs
    → AllDryRun spec.dry_run xs
unfolding new_runner
new_runner-AllDryRun spec xs h =
    built-AllDryRun spec.dry_run spec.actions xs (runner_of_ok spec.dry_run spec.actions xs h)
