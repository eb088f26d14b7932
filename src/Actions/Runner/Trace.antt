-- ===== src/Actions/Runner/Trace.antt =====
-- What a run of a countermeasure does: how far it gets, what it records, and when it may change the
-- cluster.
use mathlib.Core.List.{append_assoc, append-nil}
use k8s_countermeasures.Prelude.{
  Text, Option, none, some, List, [], ◌∷◌, ◌++◌, map, Bool, true, false, ◌≡◌, refl, sym, subst, ap,
  ◌∙◌, ◌⊎◌, inl, inr, arith, some_inj,
}
use k8s_countermeasures.Outcome.{Outcome, Error, ok, err, panic, error_text, Outcome-cases}
use k8s_countermeasures.Events.{Event}
use k8s_countermeasures.Api.Types.{CounterMeasure}
use k8s_countermeasures.Actions.Cluster.{Cluster}
use k8s_countermeasures.Actions.Perform.{
  Action, base, supports_retry, perform, get_target_object_name,
}
use k8s_countermeasures.Actions.Perform.DryRun.{perform-dry_run}
use k8s_countermeasures.Actions.Registry.{new_runner}
use k8s_countermeasures.Actions.Registry.Builds.{registry, AllDryRun, new_runner-AllDryRun}
use k8s_countermeasures.Actions.Runner.{
  Attempts, last, again, Retry, Recorded, action_error, action_taken, RunState, labels,
  taken_message, attempt, run, taken_action, failed_action,
}

module _ {W : Type 0} (retriable : Error → Bool) (fn : W → Outcome (Unit {0}) × W) where
  Attempts-keeps :
      {w : W} {r : Outcome (Unit {0}) × W}
      → ((v : W) → (fn v).1 ≡ v)
      → Attempts retriable fn w r
      → r.1 ≡ w
  Attempts-keeps {w} keep (last e) = ap (λ x. x.1) (sym e) ∙ keep w
  Attempts-keeps {w} keep (again e w' h t rest) =
      Attempts-keeps keep rest ∙ ap (λ x. x.1) (sym h) ∙ keep w

  -- With no error that may be retried there is one attempt.
  pub Attempts-once :
      {w : W} {r : Outcome (Unit {0}) × W}
      → ((e : Error) → (fn w).0 ≡ err e → retriable e ≡ false)
      → Attempts retriable fn w r
      → r ≡ fn w
  Attempts-once no_retry (last e) = sym e
  Attempts-once no_retry (again e w' h t rest) =
      absurd (ground (arith, no_retry e (ap (λ x. x.0) h)))

module _ (c : Cluster) (retry : Retry c.World) (cm : CounterMeasure) (event : Event) where
  -- An action whose retries are disabled is performed once, whatever comes of it; so is an action
  -- that succeeds at once.
  pub attempt_once :
      (a : Action) (w : c.World)
      → (supports_retry a ≡ false) ⊎ ((perform c a event w).0 ≡ ok tt)
      → attempt c retry cm event a w ≡ perform c a event w
  unfolding attempt
  attempt_once a w (inl off) =
      Attempts-once (λ e. supports_retry a) (perform c a event) (λ e h. off)
        (retry.on_error-Attempts (λ e. supports_retry a) (perform c a event) w)
  attempt_once a w (inr good) =
      Attempts-once (λ e. supports_retry a) (perform c a event) (λ e h. absurd (ground arith))
        (retry.on_error-Attempts (λ e. supports_retry a) (perform c a event) w)

  attempt-dry_run :
      (a : Action) (w : c.World) → (base a).dry_run ≡ true → (attempt c retry cm event a w).1 ≡ w
  unfolding attempt
  attempt-dry_run a w dry =
      Attempts-keeps (λ e. supports_retry a) (perform c a event)
        (λ v. perform-dry_run c a event v dry)
        (retry.on_error-Attempts (λ e. supports_retry a) (perform c a event) w)

  -- A run that does not panic either goes on after its first action, or stops at its error.
  abbrev Continues : Action → List Action → RunState c.World → RunState c.World → Type 0
  Continues a rest s t =
      (target : Text) × ((attempt c retry cm event a s.world).0 ≡ ok tt)
      × (get_target_object_name c a event ≡ ok target)
      × (run c retry cm event rest
            (taken_action c retry cm event a target (attempt c retry cm event a s.world).1 s)
          ≡ some t)

  abbrev Stops : Action → RunState c.World → RunState c.World → Type 0
  Stops a s t =
      (e : Error) × ((attempt c retry cm event a s.world).0 ≡ err e)
      × (failed_action c retry cm event a e (attempt c retry cm event a s.world).1 s ≡ t)

  run_cases :
      (a : Action) (rest : List Action) (s t : RunState c.World)
      → run c retry cm event (a ∷ rest) s ≡ some t
      → Continues a rest s t ⊎ Stops a s t
  unfolding run
  run_cases a rest s t h = elim (Outcome-cases (attempt c retry cm event a s.world).0) [
    | inl (u, e) ↦ elim (Outcome-cases (get_target_object_name c a event)) [
      | inl (target, g) ↦ inl (target, e, g, ground (arith, e, g))
      | inr (inl (m, g)) ↦ absurd (ground (arith, e, g))
      | inr (inr g) ↦ absurd (ground (arith, e, g))
    ]
    | inr (inl (m, e)) ↦ inr (m, e, ground (arith, e))
    | inr (inr e) ↦ absurd (ground (arith, e))
  ]

  run-AllDryRun :
      (xs : List Action) (s t : RunState c.World)
      → AllDryRun true xs
      → run c retry cm event xs s ≡ some t
      → t.world ≡ s.world
  run-AllDryRun [] s t h e = unfold run in ground arith
  run-AllDryRun (a ∷ rest) s t h e = elim (run_cases a rest s t e) [
    | inl (target, _, _, r) ↦
        run-AllDryRun rest _ t h.1 r ∙ (unfold taken_action in attempt-dry_run a s.world h.0)
    | inr (m, _, f) ↦
        ap (λ x. x.world) (sym f) ∙ (unfold failed_action in attempt-dry_run a s.world h.0)
  ]

  -- A countermeasure in a dry run leaves the cluster as it was, whatever its actions are and
  -- whichever of them fail and are retried.
  pub run-dry_run :
      (xs : List Action) (s t : RunState c.World)
      → cm.spec.dry_run ≡ true
      → new_runner registry cm.spec ≡ ok xs
      → run c retry cm event xs s ≡ some t
      → t.world ≡ s.world
  run-dry_run xs s t dry built e =
      run-AllDryRun xs s t (subst (λ b. AllDryRun b xs) dry (new_runner-AllDryRun cm.spec xs built))
        e

  -- The events that announce actions that were taken, if all their templates parse.
  abbrev pub announce : List Action → Option (List Recorded)
  announce [] = some []
  announce (a ∷ rest) = elim (get_target_object_name c a event) [
    | ok target ↦ elim (announce rest) [
      | none ↦ none
      | some ms ↦ some (action_taken (taken_message cm a target) ∷ ms)
    ]
    | err _ ↦ none
    | panic ↦ none
  ]

  -- The actions succeed one after the other, each in the world that the one before it left.
  abbrev pub Performed : List Action → c.World → c.World → Type 0
  Performed [] w reached = w ≡ reached
  Performed (a ∷ rest) w reached =
      ((attempt c retry cm event a w).0 ≡ ok tt)
      × Performed rest (attempt c retry cm event a w).1 reached

  -- The end of a run, in the world that the actions before it have reached: all actions were taken, or
  -- the next one failed there, and the world that its attempts leave is the last.
  pub data Ending (rest : List Action) (s t : RunState c.World) (said : List Recorded)
      (reached : c.World) : Type 0 where
    all_taken :
        rest ≡ []
        → t.world ≡ reached
        → t.errors ≡ s.errors
        → t.events ≡ s.events ++ said
        → Ending rest s t said reached
    stopped :
        (a : Action) (later : List Action) (e : Error)
        → rest ≡ a ∷ later
        → (attempt c retry cm event a reached).0 ≡ err e
        → t.world ≡ (attempt c retry cm event a reached).1
        → t.errors ≡ s.errors ++ labels cm a ∷ []
        → t.events ≡ s.events ++ (said ++ action_error (error_text e) ∷ [])
        → Ending rest s t said reached

  pub record Traced (xs : List Action) (s t : RunState c.World) : Type 0 where
    pub done : List Action
    pub rest : List Action
    pub said : List Recorded
    pub reached : c.World
    pub split : xs ≡ done ++ rest
    pub performed : Performed done s.world reached
    pub announced : announce done ≡ some said
    pub counted : t.taken ≡ s.taken ++ map (labels cm) done
    pub ending : Ending rest s t said reached

  module _ (a : Action) (target : Text) (s t : RunState c.World) where
    abbrev after : RunState c.World
    after = taken_action c retry cm event a target (attempt c retry cm event a s.world).1 s

    Ending-after :
        (rest : List Action) (said : List Recorded) (reached : c.World)
        → Ending rest after t said reached
        → Ending rest s t (action_taken (taken_message cm a target) ∷ said) reached
    unfolding taken_action
    Ending-after rest said reached (all_taken r w m v) =
        all_taken r w m (v ∙ append_assoc s.events (_ ∷ []) said)
    Ending-after rest said reached (stopped b later e r f w m v) =
        stopped b later e r f w m (v ∙ append_assoc s.events (_ ∷ []) (said ++ _ ∷ []))

    Traced-after :
        (xs : List Action)
        → (attempt c retry cm event a s.world).0 ≡ ok tt
        → get_target_object_name c a event ≡ ok target
        → Traced xs after t
        → Traced (a ∷ xs) s t
    unfolding taken_action
    Traced-after xs p g v = record {
      done = a ∷ v.done;
      rest = v.rest;
      said = action_taken (taken_message cm a target) ∷ v.said;
      reached = v.reached;
      performed = (p, v.performed);
      split = ap (λ l. a ∷ l) v.split;
      announced = ground (arith, g, v.announced);
      counted = v.counted ∙ append_assoc s.taken (labels cm a ∷ []) (map (labels cm) v.done);
      ending = Ending-after v.rest v.said v.reached v.ending;
    }

  Traced-nil : (s : RunState c.World) → Traced [] s s
  Traced-nil s = record {
    done = [];
    rest = [];
    said = [];
    reached = s.world;
    performed = refl;
    split = refl;
    announced = refl;
    counted = sym (append-nil s.taken);
    ending = all_taken refl refl refl (sym (append-nil s.events));
  }

  Traced-failed :
      (a : Action) (xs : List Action) (e : Error) (s : RunState c.World)
      → (attempt c retry cm event a s.world).0 ≡ err e
      → Traced
          (a ∷ xs)
          s
          (failed_action c retry cm event a e (attempt c retry cm event a s.world).1 s)
  unfolding failed_action
  Traced-failed a xs e s h = record {
    done = [];
    rest = a ∷ xs;
    said = [];
    reached = s.world;
    performed = refl;
    split = refl;
    announced = refl;
    counted = sym (append-nil s.taken);
    ending = stopped a xs e refl h refl refl refl;
  }

  -- A run that does not panic takes a first part of its actions, in order, which succeed one after the
  -- other, each from the world that the one before it left, and counts and announces each of them
  -- once. Either these are all its actions, no error is counted and the world is the one they reached,
  -- or the next action fails there, which is counted and recorded once, at the end, and the world is
  -- the one that its attempts left: none after it is tried.
  pub run-Traced :
      (xs : List Action) (s t : RunState c.World)
      → run c retry cm event xs s ≡ some t
      → Traced xs s t
  run-Traced [] s t h =
      let same : s ≡ t = unfold run in some_inj h in subst (Traced [] s) same (Traced-nil s)
  run-Traced (a ∷ xs) s t h = elim (run_cases a xs s t h) [
    | inl (target, p, g, r) ↦ Traced-after a target s t xs p g (run-Traced xs _ t r)
    | inr (e, p, f) ↦ subst (Traced (a ∷ xs) s) f (Traced-failed a xs e s p)
  ]
