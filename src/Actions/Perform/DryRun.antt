-- ===== src/Actions/Perform/DryRun.antt =====
-- What an action can do to the cluster in a dry run: nothing.
use k8s_countermeasures.Prelude.{if◌then◌else◌, [], ◌∷◌, ◌++◌, true, ◌≡◌, refl, arith}
use k8s_countermeasures.Events.{Event}
use k8s_countermeasures.Outcome.{Outcome, ok, err, panic, deref}
use k8s_countermeasures.Api.Types.{DeleteSpec, PatchSpec, DebugSpec, RestartSpec}
use k8s_countermeasures.Actions.Cluster.{Cluster}
use k8s_countermeasures.Assets.{get_patch}
use k8s_countermeasures.Actions.Perform.{
  BaseAction, Action, delete, patch, debug, restart, base, perform, perform_delete, perform_patch,
  perform_debug, perform_restart, bind, answer, object_key_from_template, to_group_version_kind,
  evaluate_template, create_patch, debug_container, is_not_found,
}

module _ (c : Cluster) where
  -- A step that keeps the cluster on every value keeps it.
  bind-keeps {ℓ} :
      {A : Type ℓ} (m : Outcome A) (w : c.World) (f : A → Outcome (Unit {0}) × c.World)
      → ((a : A) → (f a).1 ≡ w)
      → (bind c m w f).1 ≡ w
  bind-keeps (ok a) w f h = h a
  bind-keeps (err e) w f h = refl
  bind-keeps panic w f h = refl

  module _ (b : BaseAction) (event : Event) (w : c.World) (dry : b.dry_run ≡ true) where
    delete-dry_run : (s : DeleteSpec) → (perform_delete c b s event w).1 ≡ w
    unfolding perform_delete
    delete-dry_run s = bind-keeps (to_group_version_kind c s.target_object_ref) w _ λ gvk.
        bind-keeps (object_key_from_template c _ _ event) w _ λ name. got (c.get_object gvk name w)
      where
        got :
            (m : Outcome c.Object)
            → (let r : Outcome (Unit {0}) × c.World = elim m [
              | ok object ↦ answer c (c.delete_object object b.dry_run w)
              | err e ↦ if is_not_found e then (ok tt, w) else (err e, w)
              | panic ↦ (panic, w)
            ] in
                r.1)
              ≡ w
        got (ok o) = rw dry (c.delete_object-dry_run o w)
        got (err e) = ground arith
        got panic = refl

    patch-dry_run : (s : PatchSpec) → (perform_patch c b s event w).1 ≡ w
    unfolding perform_patch
    patch-dry_run s = bind-keeps (to_group_version_kind c s.target_object_ref) w _ λ gvk.
        bind-keeps (object_key_from_template c _ _ event) w _ λ name.
          bind-keeps (c.get_object gvk name w) w _ λ o.
            bind-keeps (deref event.event_data) w _
              λ d. bind-keeps (create_patch c s d o) w _ λ p. rw dry (c.patch_object-dry_run o p w)

    debug-dry_run : (s : DebugSpec) → (perform_debug c b s event w).1 ≡ w
    unfolding perform_debug
    debug-dry_run s = bind-keeps (object_key_from_template c _ _ event) w _ λ name.
        bind-keeps (evaluate_template c _ event) w _ λ container.
          bind-keeps (c.get_pod name w) w _ λ pod. ground (
            arith,
            dry,
            c.update_ephemeral_containers-dry_run name
                (pod.0, pod.1 ++ debug_container c s container w ∷ []) w,
          )

    restart-dry_run : (s : RestartSpec) → (perform_restart c b s event w).1 ≡ w
    unfolding perform_restart
    restart-dry_run s = bind-keeps (object_key_from_template c _ _ event) w _ λ name.
        bind-keeps (get_patch c _ w) w _
          λ p. bind-keeps (c.get_object _ name w) w _ λ o. rw dry (c.patch_object-dry_run o p w)

  -- An action in a dry run leaves the cluster as it was, on every event and whatever fails.
  pub perform-dry_run :
      (a : Action) (event : Event) (w : c.World)
      → (base a).dry_run ≡ true
      → (perform c a event w).1 ≡ w
  unfolding perform
  perform-dry_run (delete b s) event w h = delete-dry_run b event w h s
  perform-dry_run (patch b s) event w h = patch-dry_run b event w h s
  perform-dry_run (debug b s) event w h = debug-dry_run b event w h s
  perform-dry_run (restart b s) event w h = restart-dry_run b event w h s
