-- ===== src/Api/Validation.antt =====
-- apis/countermeasure/v1alpha1/webhook_validation.go and countermeasure_webhook.go: the admission
-- of countermeasures.
pub mod Admission
use k8s_countermeasures.Prelude.{
  Text, codes, is_empty, if◌then◌else◌, ltb, nat_beq, length, Option, none, some, List, [], ◌∷◌,
  ◌++◌, map, Bool, true, false, ℕ, ◌+◌, ◌≡◌, ◌≢◌,
}
use k8s_countermeasures.Outcome.{Error, failed}
use k8s_countermeasures.Api.Types.{
  ActionSpec, OnEventSpec, CounterMeasureSpec, CounterMeasure, DebugSpec,
}

-- `util.NewAggregate`: no error for an empty list, and some error for any other.
pub record Aggregates : Type 0 where
  pub new_aggregate : List Error → Option Error
  pub new_aggregate-nil : new_aggregate [] ≡ none
  pub new_aggregate-ne_none : (e : Error) (es : List Error) → new_aggregate (e ∷ es) ≢ none

unfoldable pub validate_on_event : OnEventSpec → Option Error
validate_on_event e =
    if is_empty e.event_name then some (failed (codes "event name is required")) else none

abbrev pub is_set {ℓ} : {A : Type ℓ} → Option A → Bool
is_set none = false
is_set (some a) = true

-- What reflection sees of the fields that are pointers, in their order: whether they are set.
unfoldable pub pointer_fields : ActionSpec → List Bool
pointer_fields a = is_set a.delete ∷ is_set a.patch ∷ is_set a.debug ∷ is_set a.restart ∷ []

unfoldable pub count_set : List Bool → ℕ
count_set [] = 0
count_set (b ∷ bs) = (if b then 1 else 0) + count_set bs

unfoldable pub debug_errors : ActionSpec → List Error
debug_errors a = elim a.debug [
  | none ↦ []
  | some d ↦
      if is_empty d.image
      then failed (codes "debug config for action '" ++ (a.name ++ codes "' requires a image name"))
        ∷ []
      else []
]

unfoldable pub count_errors : ActionSpec → ℕ → List Error
count_errors a count =
    (if nat_beq count 0
      then failed (codes "action '" ++ (a.name ++ codes "' must define one action type")) ∷ []
      else [])
    ++ (if ltb 1 count
        then failed (codes "each action should only have 1 defined action type") ∷ []
        else [])

abbrev pub or_else : Option Error → List Error → List Error
or_else none es = es
or_else (some e) es = e ∷ es

module _ (agg : Aggregates) where
  open agg use {new_aggregate}

  unfoldable pub validate_action : ActionSpec → Option Error
  unfolding pointer_fields count_set debug_errors count_errors
  validate_action a =
      new_aggregate (debug_errors a ++ count_errors a (count_set (pointer_fields a)))

  unfoldable pub action_errors : List ActionSpec → List Error
  action_errors [] = []
  action_errors (a ∷ rest) = or_else (validate_action a) (action_errors rest)

  unfoldable pub validate_spec : CounterMeasureSpec → Option Error
  unfolding validate_on_event action_errors
  validate_spec spec = new_aggregate (
      or_else (validate_on_event spec.on_event) (
        if is_empty spec.actions
        then failed (codes "one or more actions are required") ∷ []
        else action_errors spec.actions))

  unfoldable pub validate_create : CounterMeasure → Option Error
  validate_create cm = validate_spec cm.spec

  unfoldable pub validate_update : CounterMeasure → CounterMeasure → Option Error
  validate_update cm old = validate_spec cm.spec

unfoldable pub validate_delete : CounterMeasure → Option Error
validate_delete cm = none

-- The loop of `Default`: the slice and the range variable, which are two places.
pub record DefaultLoop : Type 0 where
  pub slice : List ActionSpec
  pub action : ActionSpec

abbrev pub with_retry : ActionSpec → ActionSpec
with_retry a = record a { retry_enabled = true }

-- A round copies the element of the slice to the range variable, and the assignment writes to this.
unfoldable pub default_round : ActionSpec → DefaultLoop → DefaultLoop
default_round element l =
    let copied = record l { action = element } in
    record copied { action = with_retry copied.action }

unfoldable pub default_rounds : List ActionSpec → DefaultLoop → DefaultLoop
unfolding default_round
default_rounds [] l = l
default_rounds (element ∷ rest) l = default_rounds rest (default_round element l)

-- The slice after the loop. The first element only initialises the range variable.
unfoldable pub default_loop : List ActionSpec → List ActionSpec
unfolding default_rounds
default_loop [] = []
default_loop (a ∷ rest) =
    (default_rounds (a ∷ rest) (record { slice = a ∷ rest; action = a })).slice

unfoldable pub default : CounterMeasure → CounterMeasure
unfolding default_loop
default cm = record cm { spec = record cm.spec { actions = default_loop cm.spec.actions } }
