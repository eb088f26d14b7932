-- ===== src/Tests/Fixtures.antt =====
-- A countermeasure, events, and the libraries as small functions.
use k8s_countermeasures.Prelude.{
  Text, codes, if◌then◌else◌, Option, none, some, List, [], ◌∷◌, ◌++◌, Bool, true, false, ℕ, zero,
  suc, ◌≡◌, ◌≢◌, refl, arith, Bool-cases, inl, inr, subst,
}
use k8s_countermeasures.Prelude.Int.{pos}
use k8s_countermeasures.Manager.{NamespacedName, ObjectMeta, ObjectKey}
use k8s_countermeasures.Outcome.{Outcome, Error, ok, err, panic, Outcome-cases}
use k8s_countermeasures.Events.{Event}
use k8s_countermeasures.Api.Types.{CounterMeasure, ActionSpec, DeleteSpec}
use k8s_countermeasures.Api.Validation.{Aggregates}
use k8s_countermeasures.Sources.{Prometheus}
use k8s_countermeasures.EventBus.Bus.{WorkQueue, Item}
use k8s_countermeasures.State.{Entry, ActionState}
use k8s_countermeasures.Actions.Cluster.{Cluster}
use k8s_countermeasures.Actions.Perform.{Action, new_base}
use k8s_countermeasures.Actions.Runner.{Attempts, last, again, Retry, RunState}

abbrev pub meta : ObjectMeta
meta = record { namespace = codes "ns"; name = codes "cm"; generation = pos 1 }

abbrev pub name : NamespacedName
name = record { namespace = codes "ns"; name = codes "cm" }

abbrev pub key : ObjectKey
key = record { namespaced_name = name; generation = pos 1 }

abbrev pub target : DeleteSpec
target = record {
  target_object_ref = record {
    namespace = codes "ns";
    name = codes "pod";
    kind = codes "Pod";
    api_version = codes "v1";
  };
}

abbrev pub action_spec : ActionSpec
action_spec = record {
  name = codes "kill";
  retry_enabled = false;
  delete = some target;
  patch = none;
  debug = none;
  restart = none;
}

abbrev pub with_dry_run : Bool → CounterMeasure
with_dry_run dry = record {
  object_meta = meta;
  spec = record {
    on_event = record {
      event_name = codes "high";
      source_selector = none;
      suppression_policy = some (record { duration = some (pos 60) });
    };
    actions = action_spec ∷ [];
    dry_run = dry;
  };
  status = record { last_status = []; last_status_change_time = none; conditions = [] };
}

abbrev pub cm : CounterMeasure
cm = with_dry_run false

abbrev pub event : Event
event = record {
  name = codes "high";
  active_time = pos 7;
  event_data = some ((codes "pod", codes "a") ∷ []);
}

abbrev pub quiet_entry : Entry
quiet_entry = record { name = codes "high"; counter_measure = cm; running = false; last_runs = [] }

abbrev pub deployed : ActionState
deployed = record { measures = (key, quiet_entry) ∷ [] }

abbrev pub first_error : List Error → Option Error
first_error [] = none
first_error (e ∷ es) = some e

pub first_error-ne_none : (e : Error) (es : List Error) → first_error (e ∷ es) ≢ none
first_error-ne_none e es h = cc

abbrev pub aggregates : Aggregates
aggregates = record {
  new_aggregate = first_error;
  new_aggregate-nil = refl;
  new_aggregate-ne_none = first_error-ne_none;
}

-- The queue is a list, in the order in which its items are taken.
abbrev pub take_item : List Item → Option Item × List Item
take_item [] = (none, [])
take_item (i ∷ q) = (some i, q)

abbrev pub work_queue : WorkQueue
work_queue = record {
  Queue = List Item;
  add = λ i q. q ++ i ∷ [];
  get = take_item;
  done = λ i q. q;
  forget = λ i q. q;
  add_rate_limited = λ i q. q ++ i ∷ [];
}

-- The world counts what was changed.
abbrev pub write : Bool → ℕ → Option Error × ℕ
write dry w = (none, if dry then w else suc w)

pub write-dry_run : (w : ℕ) → (write true w).1 ≡ w
write-dry_run w = refl

abbrev pub cluster : Cluster
cluster = record {
  World = ℕ;
  Object = Unit;
  Pod = Unit;
  Patch = Unit;
  Template = Text;
  get_object = λ gvk n w. ok tt;
  get_pod = λ n w. ok (tt, []);
  delete_object = λ o dry w. write dry w;
  patch_object = λ o p dry w. write dry w;
  update_ephemeral_containers = λ n p dry w. write dry w;
  delete_object-dry_run = λ o w. write-dry_run w;
  patch_object-dry_run = λ o p w. write-dry_run w;
  update_ephemeral_containers-dry_run = λ n p w. write-dry_run w;
  parse_group_version = λ t. ok ([], t);
  parse_template = λ t. ok t;
  execute = λ t e. t;
  execute_patch = λ t d o. ok t;
  yaml_to_json = λ t. ok t;
  raw_patch = λ kind t. tt;
  parse_embedded = λ t. ok t;
  execute_now = λ t w. ok t;
  random_name = λ w. codes "abcde";
}

-- So many attempts more than one.
abbrev pub on_error_fuel :
    {W : Type 0} → ℕ → (Error → Bool) → (W → Outcome (Unit {0}) × W) → W → Outcome (Unit {0}) × W
on_error_fuel zero retriable fn w = fn w
on_error_fuel (suc n) retriable fn w =
    let (o, w') = fn w in
    elim o [
      | ok u ↦ (ok u, w')
      | err e ↦ if retriable e then on_error_fuel n retriable fn w' else (err e, w')
      | panic ↦ (panic, w')
    ]

pub on_error_fuel-Attempts :
    {W : Type 0} (n : ℕ) (retriable : Error → Bool) (fn : W → Outcome (Unit {0}) × W) (w : W)
    → Attempts retriable fn w (on_error_fuel n retriable fn w)
on_error_fuel-Attempts zero retriable fn w = last refl
on_error_fuel-Attempts (suc n) retriable fn w = elim (Outcome-cases (fn w).0) [
  | inl (u, h) ↦ last (ground (arith, h))
  | inr (inl (e, h)) ↦ elim (Bool-cases (retriable e)) [
    | inl r ↦
        let more : on_error_fuel n retriable fn (fn w).1 ≡ on_error_fuel (suc n) retriable fn w =
          ground (arith, h, r) in
        subst (Attempts retriable fn w) more
          (again e (fn w).1 (ground (arith, h)) r (on_error_fuel-Attempts n retriable fn (fn w).1))
    | inr r ↦ last (ground (arith, h, r))
  ]
  | inr (inr h) ↦ last (ground (arith, h))
]

-- The four attempts of `retry.DefaultBackoff`.
abbrev pub retry : Retry ℕ
retry = record { on_error = on_error_fuel 3; on_error-Attempts = on_error_fuel-Attempts 3 }

abbrev pub queue_retry : Retry (List Item)
queue_retry = record { on_error = on_error_fuel 3; on_error-Attempts = on_error_fuel-Attempts 3 }

abbrev pub kill : Bool → Action
kill dry = Action.delete (new_base action_spec dry) target

abbrev pub begin : RunState ℕ
begin = record { world = 0; events = []; taken = []; errors = [] }

abbrev pub retry_of : (W : Type 0) → Retry W
retry_of W = record { on_error = on_error_fuel 3; on_error-Attempts = on_error_fuel-Attempts 3 }

abbrev pub source : Prometheus
source = record {
  object_meta = meta;
  spec = record {
    service = record {
      namespace = codes "ns";
      name = codes "prom";
      path = none;
      port = pos 9090;
      target_port = [];
      use_tls = false;
    };
    auth = some (record { secret_reference = record { namespace = []; name = codes "login" } });
    polling_interval = pos 5;
    include_pending = true;
  };
  status = record { state = []; conditions = [] };
}
