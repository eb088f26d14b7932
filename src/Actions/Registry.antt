-- ===== src/Actions/Registry.antt =====
-- pkg/actions/action.go: `Registry`, which builds the actions of a countermeasure. `reflect.Type` is
-- an enumeration of the four types that are registered.
pub mod Builds
use k8s_countermeasures.Prelude.{
  Text, codes, Map, Eq, lookup, insert, ◌==◌, if◌then◌else◌, Option, none, some, List, [], ◌∷◌,
  ◌++◌, Bool, true, false, ◌≡◌, ◌↔◌, refl, arith,
}
use k8s_countermeasures.Outcome.{Outcome, Error, ok, err, panic, failed, ◌>>=◌, deref}
use k8s_countermeasures.Api.Types.{ActionSpec, CounterMeasureSpec}
use k8s_countermeasures.Api.Validation.{is_set}
use k8s_countermeasures.Actions.Perform.{Action, new_base}

pub data SpecType : Type 0 where
  delete_spec patch_spec debug_spec restart_spec : SpecType

abbrev pub spec_type_beq : SpecType → SpecType → Bool
spec_type_beq delete_spec delete_spec = true
spec_type_beq patch_spec patch_spec = true
spec_type_beq debug_spec debug_spec = true
spec_type_beq restart_spec restart_spec = true
spec_type_beq _ _ = false

pub spec_type_beq_iff : (a b : SpecType) → (spec_type_beq a b ≡ true) ↔ (a ≡ b)
spec_type_beq_iff a b = ground arith

instance abbrev pub spec_type_eq : Eq SpecType
spec_type_eq = record { beq = spec_type_beq; beq_iff = spec_type_beq_iff }

abbrev pub ActionBuilder : Type 0
ActionBuilder = ActionSpec → Bool → Outcome Action

-- A registry that nothing was registered with has a nil map.
pub record Registry : Type 0 where
  pub builders : Option (Map SpecType ActionBuilder)

unfoldable pub register_action : Registry → SpecType → ActionBuilder → Registry
register_action r prototype builder = elim r.builders [
  | none ↦ record { builders = some (insert prototype builder []) }
  | some m ↦ record { builders = some (insert prototype builder m) }
]

unfoldable pub build_delete : ActionBuilder
build_delete spec dry_run = do s ← deref spec.delete; ok (Action.delete (new_base spec dry_run) s)

unfoldable pub build_patch : ActionBuilder
build_patch spec dry_run = do s ← deref spec.patch; ok (Action.patch (new_base spec dry_run) s)

unfoldable pub build_restart : ActionBuilder
build_restart spec dry_run = do
  s ← deref spec.restart
  ok (Action.restart (new_base spec dry_run) s)

-- `kubernetes.NewForConfig` fails with the error, if there is one, and the builder panics.
unfoldable pub build_debug : Option Error → ActionBuilder
build_debug (some e) spec dry_run = panic
build_debug none spec dry_run = do s ← deref spec.debug; ok (Action.debug (new_base spec dry_run) s)

-- `Initialize`, in the order of its registrations.
unfoldable pub initialize : Option Error → Registry → Registry
unfolding register_action build_delete build_debug build_patch build_restart
initialize config r0 =
    let r1 = register_action r0 delete_spec build_delete in
    let r2 = register_action r1 debug_spec (build_debug config) in
    let r3 = register_action r2 patch_spec build_patch in
    register_action r3 restart_spec build_restart

abbrev pub empty : Registry
empty = record { builders = none }

-- The fields of the action that are pointers, in the order of the struct: type, and whether set.
unfoldable pub fields : ActionSpec → List (SpecType × Bool)
fields a =
    (delete_spec, is_set a.delete)
    ∷ (patch_spec, is_set a.patch)
    ∷ (debug_spec, is_set a.debug)
    ∷ (restart_spec, is_set a.restart)
    ∷ []

-- `r.builders[t]`; a nil map reads as empty.
unfoldable pub builder_of : Registry → SpecType → Option ActionBuilder
builder_of r t = elim r.builders [ none ↦ none | some m ↦ lookup t m ]

unfoldable pub create_loop : Registry → ActionSpec → Bool → List (SpecType × Bool) → Outcome Action
create_loop r a dry_run [] = err (
    failed (
      codes "action '"
      ++ (a.name ++ codes "' is either mis-configured or using an unknown action type")))
create_loop r a dry_run ((t, set) ∷ rest) =
    let next = create_loop r a dry_run rest in
    if set then elim (builder_of r t) [ none ↦ next | some builder ↦ builder a dry_run ] else next

unfoldable pub create : Registry → ActionSpec → Bool → Outcome Action
unfolding create_loop fields builder_of
create r a dry_run = create_loop r a dry_run (fields a)

unfoldable pub new_runner_loop : Registry → Bool → List ActionSpec → Outcome (List Action)
unfolding create
new_runner_loop r dry_run [] = ok []
new_runner_loop r dry_run (a ∷ rest) = do
  impl ← create r a dry_run
  others ← new_runner_loop r dry_run rest
  ok (impl ∷ others)

unfoldable pub new_runner : Registry → CounterMeasureSpec → Outcome (List Action)
unfolding new_runner_loop
new_runner r spec = new_runner_loop r spec.dry_run spec.actions
