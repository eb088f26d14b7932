-- ===== src/Tests/DebugTests.antt =====
-- The debug container of a pod at concrete inputs.
use mathlib.Core.List.{Memᴰ}
use mathlib.Core.List.Memᴰ.{tail}
use k8s_countermeasures.Prelude.{
  ap, sym, subst, Text, codes, if◌then◌else◌, Option, none, List, [], ◌∷◌, Bool, true, false, ◌≡◌,
  ◌≢◌, refl,
}
use k8s_countermeasures.Outcome.{Outcome, Error, ok, err, panic}
use k8s_countermeasures.Api.Types.{DebugSpec}
use k8s_countermeasures.Actions.Cluster.{Cluster, EphemeralContainer}
use k8s_countermeasures.Actions.Perform.{
  BaseAction, perform_debug, object_key_from_template, evaluate_template, installed,
  debug_container,
}
use k8s_countermeasures.Actions.Perform.Debugging.{KeepsContainers, debug_installs_once}
use k8s_countermeasures.Tests.Fixtures.{event}

-- One pod, whose ephemeral containers are the world.
abbrev update :
    Unit {0} × List EphemeralContainer
    → Bool
    → List EphemeralContainer
    → Option Error × List EphemeralContainer
update pod dry w = (none, if dry then w else pod.1)

abbrev one_pod : Cluster
one_pod = record {
  World = List EphemeralContainer;
  Object = Unit;
  Pod = Unit;
  Patch = Unit;
  Template = Text;
  get_object = λ gvk n w. ok tt;
  get_pod = λ n w. ok (tt, w);
  delete_object = λ o dry w. (none, w);
  patch_object = λ o p dry w. (none, w);
  update_ephemeral_containers = λ n p dry w. update p dry w;
  delete_object-dry_run = λ o w. refl;
  patch_object-dry_run = λ o p w. refl;
  update_ephemeral_containers-dry_run = λ n p w. refl;
  parse_group_version = λ t. ok ([], t);
  parse_template = λ t. ok t;
  execute = λ t e. t;
  execute_patch = λ t d o. ok t;
  yaml_to_json = λ t. ok t;
  raw_patch = λ kind t. tt;
  parse_embedded = λ t. ok t;
  execute_now = λ t w. ok t;
  random_name = λ w. codes "abcde";
}

abbrev base : BaseAction
base = record { dry_run = false; retry_enabled = false; name = codes "debug" }

abbrev spec : DebugSpec
spec = record {
  name = codes "shell";
  image = codes "busybox";
  command = [];
  args = [];
  std_in = true;
  tty = true;
  pod_ref = record { namespace = codes "ns"; name = codes "pod"; container = codes "main" };
}

abbrev shell : EphemeralContainer
shell = debug_container one_pod spec (codes "main") []

-- The containers that were read.
abbrev written : Outcome (Unit {0} × List EphemeralContainer) → List EphemeralContainer
written (ok pod) = pod.1
written (err e) = []
written panic = []

-- A later world has all containers of an earlier one.
abbrev Since : List EphemeralContainer → List EphemeralContainer → Type 0
Since w later = (d : EphemeralContainer) → Memᴰ d w → Memᴰ d later

keeps : KeepsContainers one_pod Since
keeps = record {
  kept_read = λ n pod w later h after.
      ((tt, later), refl, λ d m. after d (subst (Memᴰ d) (sym (ap written h)) m));
  kept_written = λ n pod w later h after. ((tt, later), refl, after);
}

named : spec.name ≢ []
named e = cc

performed : perform_debug one_pod base spec event [] ≡ (ok tt, shell ∷ [])
unfolding perform_debug object_key_from_template evaluate_template installed debug_container
performed = refl

-- Another container was added meanwhile.
abbrev beside : EphemeralContainer
beside = record shell { name = codes "other" }

kept : Since (shell ∷ []) (beside ∷ shell ∷ [])
kept d m = tail m

debug_installs_once_example :
    perform_debug one_pod base spec event (beside ∷ shell ∷ []) ≡ (ok tt, beside ∷ shell ∷ [])
debug_installs_once_example =
    debug_installs_once one_pod base spec event event Since [] (shell ∷ []) (beside ∷ shell ∷ [])
      keeps refl named performed kept refl refl
