-- ===== src/Api/Validation/Admission.antt =====
-- Which countermeasures are admitted, said of the specification alone.
use k8s_countermeasures.Prelude.{
  Text, codes, is_empty, if◌then◌else◌, Option, none, some, List, [], ◌∷◌, ◌++◌, true, ◌≡◌, ◌≢◌,
  ◌↔◌, refl, arith,
}
use k8s_countermeasures.Outcome.{Error, failed}
use k8s_countermeasures.Api.Types.{
  ActionSpec, OnEventSpec, CounterMeasureSpec, CounterMeasure, DebugSpec, DeleteSpec, PatchSpec,
  RestartSpec,
}
use k8s_countermeasures.Api.Validation.{
  Aggregates, validate_on_event, validate_action, action_errors, validate_spec, or_else,
  count_errors, count_set, pointer_fields, debug_errors, default, default_loop, DefaultLoop,
  default_round, default_rounds,
}

-- An action of one type, and only that one.
pub data HasOneType (a : ActionSpec) : Type 0 where
  deletes :
      (s : DeleteSpec)
      → a.delete ≡ some s
      → a.patch ≡ none
      → a.debug ≡ none
      → a.restart ≡ none
      → HasOneType a
  patches :
      (s : PatchSpec)
      → a.delete ≡ none
      → a.patch ≡ some s
      → a.debug ≡ none
      → a.restart ≡ none
      → HasOneType a
  debugs :
      (s : DebugSpec)
      → a.delete ≡ none
      → a.patch ≡ none
      → a.debug ≡ some s
      → a.restart ≡ none
      → s.image ≢ []
      → HasOneType a
  restarts :
      (s : RestartSpec)
      → a.delete ≡ none
      → a.patch ≡ none
      → a.debug ≡ none
      → a.restart ≡ some s
      → HasOneType a

abbrev pub AllHaveOneType : List ActionSpec → Type 0
AllHaveOneType [] = Unit {0}
AllHaveOneType (a ∷ rest) = HasOneType a × AllHaveOneType rest

pub record IsAdmissible (spec : CounterMeasureSpec) : Type 0 where
  pub named : spec.on_event.event_name ≢ []
  pub acts : spec.actions ≢ []
  pub typed : AllHaveOneType spec.actions

is_empty_iff : (s : Text) → (is_empty s ≡ true) ↔ (s ≡ [])
is_empty_iff [] = (λ _. refl, λ _. refl)
is_empty_iff (c ∷ s) = ground arith

abbrev errors_of : ActionSpec → List Error
errors_of a = debug_errors a ++ count_errors a (count_set (pointer_fields a))

one_type_of_no_errors :
    (a : ActionSpec) (d : Option DeleteSpec) (p : Option PatchSpec) (b : Option DebugSpec)
    (r : Option RestartSpec)
    → a.delete ≡ d
    → a.patch ≡ p
    → a.debug ≡ b
    → a.restart ≡ r
    → errors_of a ≡ []
    → HasOneType a
unfolding debug_errors count_errors count_set pointer_fields
one_type_of_no_errors a (some s) none none none d p b r h = deletes s d p b r
one_type_of_no_errors a none (some s) none none d p b r h = patches s d p b r
one_type_of_no_errors a none none (some s) none d p b r h =
    debugs s d p b r (ground (arith, is_empty_iff s.image))
one_type_of_no_errors a none none none (some s) d p b r h = restarts s d p b r
one_type_of_no_errors a _ _ _ _ d p b r h = absurd (ground (arith, d, p, b, r))

no_errors_of_one_type : (a : ActionSpec) → HasOneType a → errors_of a ≡ []
unfolding debug_errors count_errors count_set pointer_fields
no_errors_of_one_type a (deletes s d p b r) = ground (arith, d, p, b, r)
no_errors_of_one_type a (patches s d p b r) = ground (arith, d, p, b, r)
no_errors_of_one_type a (debugs s d p b r i) = ground (arith, d, p, b, r, is_empty_iff s.image)
no_errors_of_one_type a (restarts s d p b r) = ground (arith, d, p, b, r)

module _ (agg : Aggregates) where
  aggregate_iff : (es : List Error) → (agg.new_aggregate es ≡ none) ↔ (es ≡ [])
  aggregate_iff [] = (λ _. refl, λ _. agg.new_aggregate-nil)
  aggregate_iff (e ∷ es) = (λ h. absurd (agg.new_aggregate-ne_none e es h), λ h. cc)

  -- `ValidateAction` accepts an action exactly when one of its four types is set, and only one, and
  -- a debug action has an image.
  pub validate_action_iff : (a : ActionSpec) → (validate_action agg a ≡ none) ↔ HasOneType a
  unfolding validate_action
  validate_action_iff a = (
    λ h. one_type_of_no_errors a _ _ _ _ refl refl refl refl ((aggregate_iff (errors_of a)).0 h),
    λ h. (aggregate_iff (errors_of a)).1 (no_errors_of_one_type a h),
  )

  or_else-nil :
      (o : Option Error) (es : List Error) → (or_else o es ≡ []) ↔ ((o ≡ none) × (es ≡ []))
  or_else-nil none es = ground arith
  or_else-nil (some e) es = ground arith

  action_errors_iff : (l : List ActionSpec) → (action_errors agg l ≡ []) ↔ AllHaveOneType l
  unfolding action_errors
  action_errors_iff [] = (λ _. tt, λ _. refl)
  action_errors_iff (a ∷ l) = (
    λ h.
        let parts = (or_else-nil (validate_action agg a) (action_errors agg l)).0 h in
        ((validate_action_iff a).0 parts.0, (action_errors_iff l).0 parts.1),
    λ h.
        (or_else-nil (validate_action agg a) (action_errors agg l)).1
          ((validate_action_iff a).1 h.0, (action_errors_iff l).1 h.1),
  )

  abbrev action_part : List ActionSpec → List Error
  action_part l =
      if is_empty l
      then failed (codes "one or more actions are required") ∷ []
      else action_errors agg l

  action_part_iff : (l : List ActionSpec) → (action_part l ≡ []) ↔ ((l ≢ []) × AllHaveOneType l)
  action_part_iff [] = (λ h. cc, λ h. absurd (h.0 refl))
  action_part_iff (a ∷ l) =
      (λ h. (λ e. cc, (action_errors_iff (a ∷ l)).0 h), λ h. (action_errors_iff (a ∷ l)).1 h.1)

  validate_on_event_iff : (e : OnEventSpec) → (validate_on_event e ≡ none) ↔ (e.event_name ≢ [])
  unfolding validate_on_event
  validate_on_event_iff e = ground (arith, is_empty_iff e.event_name)

  -- A specification is admitted exactly when its event has a name, it has at least one action, and
  -- each action has exactly one type, with an image if it is a debug action.
  pub validate_spec_iff :
      (spec : CounterMeasureSpec) → (validate_spec agg spec ≡ none) ↔ IsAdmissible spec
  unfolding validate_spec
  validate_spec_iff spec =
      let errors = or_else (validate_on_event spec.on_event) (action_part spec.actions) in
      let parts = or_else-nil (validate_on_event spec.on_event) (action_part spec.actions) in
      (
        λ h.
            let p = parts.0 ((aggregate_iff errors).0 h) in
            let acts = (action_part_iff spec.actions).0 p.1 in
            record {
              named = (validate_on_event_iff spec.on_event).0 p.0;
              acts = acts.0;
              typed = acts.1;
            },
        λ v. (aggregate_iff errors).1 (
            parts.1 (
              (validate_on_event_iff spec.on_event).1 v.named,
              (action_part_iff spec.actions).1 (v.acts, v.typed),
            )),
      )

default_rounds-slice :
    (es : List ActionSpec) (l : DefaultLoop) → (default_rounds es l).slice ≡ l.slice
unfolding default_rounds default_round
default_rounds-slice [] l = refl
default_rounds-slice (e ∷ es) l = default_rounds-slice es (default_round e l)

default_loop_lem : (l : List ActionSpec) → default_loop l ≡ l
unfolding default_loop
default_loop_lem [] = refl
default_loop_lem (a ∷ l) = default_rounds-slice (a ∷ l) (record { slice = a ∷ l; action = a })

-- What the defaulting webhook leaves of a countermeasure.
default_lem : (cm : CounterMeasure) → default cm ≡ cm
unfolding default
default_lem cm = ground (arith, default_loop_lem cm.spec.actions)
