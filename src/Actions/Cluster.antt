-- ===== src/Actions/Cluster.antt =====
-- What the actions use of the libraries: the API server's client, templates and YAML. A client's
-- `Get` reads the cluster; the other calls answer an error or nil beside the new cluster.
use k8s_countermeasures.Prelude.{Text, List, Option, Bool, true, ◌≡◌}
use k8s_countermeasures.Manager.{NamespacedName}
use k8s_countermeasures.Events.{Event, EventData}
use k8s_countermeasures.Outcome.{Outcome, Error}

-- `schema.GroupVersionKind`.
pub record GroupVersionKind : Type 0 where
  pub group : Text
  pub version : Text
  pub kind : Text

-- The fields of `corev1.EphemeralContainer` that the debug action sets.
pub record EphemeralContainer : Type 0 where
  pub name : Text
  pub image : Text
  pub image_pull_policy : Text
  pub command : List Text
  pub args : List Text
  pub stdin : Bool
  pub tty : Bool
  pub termination_message_policy : Text
  pub target_container_name : Text

pub record Cluster : Type 1 where
  pub World : Type 0
  -- an unstructured object, as it was read
  pub Object : Type 0
  -- a pod without its ephemeral containers
  pub Pod : Type 0
  pub Patch : Type 0
  pub Template : Type 0
  -- `client.Get`
  pub get_object : GroupVersionKind → NamespacedName → World → Outcome Object
  pub get_pod : NamespacedName → World → Outcome (Pod × List EphemeralContainer)
  -- `client.Delete`, `client.Patch` and `UpdateEphemeralContainers`; the flag is `DryRunAll`
  pub delete_object : Object → Bool → World → Option Error × World
  pub patch_object : Object → Patch → Bool → World → Option Error × World
  pub update_ephemeral_containers :
      NamespacedName → Pod × List EphemeralContainer → Bool → World → Option Error × World
  -- a dry run is processed and not persisted
  pub delete_object-dry_run : (o : Object) (w : World) → (delete_object o true w).1 ≡ w
  pub patch_object-dry_run : (o : Object) (p : Patch) (w : World) → (patch_object o p true w).1 ≡ w
  pub update_ephemeral_containers-dry_run :
      (n : NamespacedName) (p : Pod × List EphemeralContainer) (w : World)
      → (update_ephemeral_containers n p true w).1 ≡ w
  -- `schema.ParseGroupVersion`
  pub parse_group_version : Text → Outcome (Text × Text)
  -- `template.Parse`, and what `Execute` has written to the buffer when it returns
  pub parse_template : Text → Outcome Template
  pub execute : Template → Event → Text
  -- `Execute` over the data of a patch, `yaml.YAMLToJSON` and `client.RawPatch`
  pub execute_patch : Template → EventData → Object → Outcome Text
  pub yaml_to_json : Text → Outcome Text
  pub raw_patch : Text → Text → Patch
  -- `template.ParseFS` of an embedded file, and `Execute` of a template that reads the clock
  pub parse_embedded : Text → Outcome Template
  pub execute_now : Template → World → Outcome Text
  -- `rand.String(5)`, which reads the random source
  pub random_name : World → Text
