-- ===== src/Actions/Perform.antt =====
-- pkg/actions/{action,delete,restart,patch,debug}.go: the four actions over a cluster. The Go types
-- that implement the interface `Action` are the constructors of one data type.
pub mod DryRun
pub mod Debugging
use k8s_countermeasures.Prelude.{
  Text, text_eq, codes, is_empty, ◌==◌, if◌then◌else◌, Option, none, some, List, [], ◌∷◌, ◌++◌,
  Bool, true, false, not, leb, ◌&&◌, ◌+◌,
}
use k8s_countermeasures.Prelude.Int.{ℤ}
use k8s_countermeasures.Manager.{NamespacedName}
use k8s_countermeasures.Events.{Event, EventData}
use k8s_countermeasures.Outcome.{
  Outcome, Error, ok, err, panic, not_found, conflict, failed, ◌>>=◌, deref, from_error,
}
use k8s_countermeasures.Api.Types.{
  ActionSpec, DeleteSpec, PatchSpec, DebugSpec, RestartSpec, ObjectReference,
}
use k8s_countermeasures.Assets.{get_patch}
use k8s_countermeasures.Actions.Cluster.{Cluster, GroupVersionKind, EphemeralContainer}

pub record BaseAction : Type 0 where
  pub dry_run : Bool
  pub retry_enabled : Bool
  pub name : Text

unfoldable pub new_base : ActionSpec → Bool → BaseAction
new_base spec dry_run = record {
  dry_run = dry_run;
  retry_enabled = spec.retry_enabled;
  name = spec.name;
}

pub data Action : Type 0 where
  delete : BaseAction → DeleteSpec → Action
  patch : BaseAction → PatchSpec → Action
  debug : BaseAction → DebugSpec → Action
  restart : BaseAction → RestartSpec → Action

abbrev pub base : Action → BaseAction
base (delete b s) = b
base (patch b s) = b
base (debug b s) = b
base (restart b s) = b

unfoldable pub get_type : Action → Text
get_type (delete b s) = codes "delete"
get_type (patch b s) = codes "patch"
get_type (debug b s) = codes "debug"
get_type (restart b s) = codes "restart"

unfoldable pub get_name : Action → Text
get_name a = (base a).name

unfoldable pub supports_retry : Action → Bool
supports_retry a = (base a).retry_enabled

-- Whether one of the containers has the name.
unfoldable pub installed : Text → List EphemeralContainer → Bool
installed name [] = false
installed name (c ∷ cs) = if c.name == name then true else installed name cs

-- `strings.ToLower` on ASCII.
unfoldable pub to_lower : Text → Text
to_lower [] = []
to_lower (c ∷ s) = (if leb b'A' c && leb c b'Z' then c + 32 else c) ∷ to_lower s

-- `errors.IsNotFound`.
abbrev pub is_not_found : Error → Bool
is_not_found (not_found t) = true
is_not_found _ = false

module _ (c : Cluster) where
  open c use {
    World, Object, Pod, Patch, Template, get_object, get_pod, delete_object, patch_object,
    update_ephemeral_containers, parse_group_version, parse_template, execute, execute_patch,
    yaml_to_json, raw_patch, random_name,
  }

  -- `template.Must` panics on a template that does not parse; the error of `Execute` is dropped.
  unfoldable pub evaluate_template : Text → Event → Outcome Text
  evaluate_template template event = elim (parse_template template) [
    | ok t ↦ ok (execute t event)
    | err e ↦ panic
    | panic ↦ panic
  ]

  unfoldable pub object_key_from_template : Text → Text → Event → Outcome NamespacedName
  unfolding evaluate_template
  object_key_from_template namespace name event = do
    ns ← evaluate_template namespace event
    n ← evaluate_template name event
    ok (record { namespace = ns; name = n })

  unfoldable pub to_group_version_kind : ObjectReference → Outcome GroupVersionKind
  to_group_version_kind o = do
    gv ← parse_group_version o.api_version
    ok (record { group = gv.0; version = gv.1; kind = o.kind })

  -- The answer of a call that writes, as an outcome.
  abbrev answer : Option Error × World → Outcome (Unit {0}) × World
  answer (e, w) = (from_error e, w)

  -- Go on with a value, or stop with an error or a panic in the same cluster.
  abbrev bind {ℓ} :
      {A : Type ℓ}
      → Outcome A
      → World
      → (A → Outcome (Unit {0}) × World)
      → Outcome (Unit {0}) × World
  bind (ok a) w f = f a
  bind (err e) w f = (err e, w)
  bind panic w f = (panic, w)

  unfoldable pub perform_delete :
      BaseAction → DeleteSpec → Event → World → Outcome (Unit {0}) × World
  unfolding object_key_from_template to_group_version_kind
  perform_delete b s event w =
      let target = s.target_object_ref in
      bind (to_group_version_kind target) w λ gvk.
        bind (object_key_from_template target.namespace target.name event) w λ name.
          elim (get_object gvk name w) [
            | ok object ↦ answer (delete_object object b.dry_run w)
            | err e ↦ if is_not_found e then (ok tt, w) else (err e, w)
            | panic ↦ (panic, w)
          ]

  unfoldable pub perform_restart :
      BaseAction → RestartSpec → Event → World → Outcome (Unit {0}) × World
  unfolding object_key_from_template get_patch
  perform_restart b s event w =
      let gvk : GroupVersionKind = record {
        group = codes "apps";
        version = codes "v1";
        kind = codes "Deployment";
      } in
      let target = s.deployment_ref in
      bind (object_key_from_template target.namespace target.name event) w λ name.
        bind (get_patch c (codes "restart-patch.yaml") w) w λ patch.
          bind (get_object gvk name w) w λ object. answer (patch_object object patch b.dry_run w)

  unfoldable pub create_patch : PatchSpec → EventData → Object → Outcome Patch
  create_patch s d object = do
    tmpl ← parse_template s.yaml_template
    text ← execute_patch tmpl d object
    json ← yaml_to_json text
    ok (raw_patch s.patch_type json)

  unfoldable pub perform_patch : BaseAction → PatchSpec → Event → World → Outcome (Unit {0}) × World
  unfolding object_key_from_template to_group_version_kind create_patch
  perform_patch b s event w =
      let target = s.target_object_ref in
      bind (to_group_version_kind target) w λ gvk.
        bind (object_key_from_template target.namespace target.name event) w λ name.
          bind (get_object gvk name w) w λ object. bind (deref event.event_data) w λ d.
            bind (create_patch s d object) w λ patch. answer (patch_object object patch b.dry_run w)

  unfoldable pub debug_container : DebugSpec → Text → World → EphemeralContainer
  debug_container s target w = record {
    name = if is_empty s.name then codes "debug-" ++ random_name w else s.name;
    image = s.image;
    image_pull_policy = codes "Always";
    command = s.command;
    args = s.args;
    stdin = s.std_in;
    tty = s.tty;
    termination_message_policy = codes "File";
    target_container_name = target;
  }

  unfoldable pub perform_debug : BaseAction → DebugSpec → Event → World → Outcome (Unit {0}) × World
  unfolding object_key_from_template evaluate_template installed debug_container
  perform_debug b s event w =
      let target = s.pod_ref in
      bind (object_key_from_template target.namespace target.name event) w λ pod_name.
        bind (evaluate_template target.container event) w λ container.
          bind (get_pod pod_name w) w λ pod.
            if installed s.name pod.1
            then (ok tt, w)
            else answer (
                update_ephemeral_containers pod_name
                  (pod.0, pod.1 ++ debug_container s container w ∷ []) b.dry_run w)

  unfoldable pub perform : Action → Event → World → Outcome (Unit {0}) × World
  unfolding perform_delete perform_patch perform_debug perform_restart
  perform (delete b s) = perform_delete b s
  perform (patch b s) = perform_patch b s
  perform (debug b s) = perform_debug b s
  perform (restart b s) = perform_restart b s

  unfoldable pub create_object_name : Text → Text → Text → Event → Outcome Text
  unfolding evaluate_template to_lower
  create_object_name kind namespace name event = do
    ns ← evaluate_template namespace event
    n ← evaluate_template name event
    ok (to_lower kind ++ (codes ": '" ++ (ns ++ (codes "/" ++ (n ++ codes "'")))))

  unfoldable pub get_target_object_name : Action → Event → Outcome Text
  unfolding create_object_name
  get_target_object_name (delete b s) =
      let t = s.target_object_ref in create_object_name t.kind t.namespace t.name
  get_target_object_name (patch b s) =
      let t = s.target_object_ref in create_object_name t.kind t.namespace t.name
  get_target_object_name (debug b s) =
      create_object_name (codes "pod") s.pod_ref.namespace s.pod_ref.name
  get_target_object_name (restart b s) =
      create_object_name (codes "deployment") s.deployment_ref.namespace s.deployment_ref.name
