-- ===== src/Tests/ControllerTests.antt =====
-- Reconciliations at concrete inputs.
use k8s_countermeasures.Prelude.{Option, none, [], ◌∷◌, ◌≡◌, refl, ℕ, suc}
use k8s_countermeasures.Prelude.Int.{pos}
use k8s_countermeasures.Manager.{to_key, namespaced_name_eq}
use k8s_countermeasures.Outcome.{Outcome, Error, ok}
use k8s_countermeasures.Api.Types.{CounterMeasure, LabelSelector}
use k8s_countermeasures.EventBus.Bus.{new_bus}
use k8s_countermeasures.EventBus.Bus.Invariant.{new_bus-IsValid}
use k8s_countermeasures.State.{new_state}
use k8s_countermeasures.Actions.Manager.{Manager, add}
use k8s_countermeasures.Actions.Manager.Installing.{name_of, installed}
use k8s_countermeasures.Controller.{reconcile}
use k8s_countermeasures.Status.{Resources, Served}
use k8s_countermeasures.Controller.Reconciling.{Changed, reconcile-Changed, new_generation_ignored}
use k8s_countermeasures.Tests.Fixtures.{cm, name, aggregates, retry_of}

abbrev serving : Outcome CounterMeasure → Resources CounterMeasure
serving answer = record {
  World = ℕ;
  get = λ n w. answer;
  update_status = λ c w. (ok c, suc w);
  set_status_condition = λ cs c. c ∷ cs;
  condition_time = λ w. pos w;
  status_time = λ w. pos w;
}

abbrev manager : Manager
manager = record { consumers = []; state = new_state; bus = new_bus }

abbrev no_sources : LabelSelector → Option Error
no_sources selector = none

abbrev fresh : Served ℕ
fresh = record { world = 0; recorded = [] }

reconcile-Changed_example :
    Changed
      (serving (ok cm))
      (retry_of ℕ)
      (retry_of (Error × Served ℕ))
      (retry_of (CounterMeasure × ℕ))
      aggregates
      no_sources
      name
      fresh
      manager
      (reconcile
        (serving (ok cm))
        (retry_of ℕ)
        (retry_of (Error × Served ℕ))
        (retry_of (CounterMeasure × ℕ))
        aggregates
        no_sources
        name
        manager
        fresh).1.0
reconcile-Changed_example =
    reconcile-Changed (serving (ok cm)) (retry_of ℕ) (retry_of (Error × Served ℕ))
      (retry_of (CounterMeasure × ℕ)) aggregates no_sources name manager fresh

abbrev after_add : Manager
after_add = installed manager cm

added : add no_sources manager cm ≡ ok after_add
unfolding add
added = refl

-- The same name in its second generation.
abbrev changed : CounterMeasure
changed = record cm { object_meta = record cm.object_meta { generation = pos 2 } }

same_name : name_of cm.object_meta ≡ name_of changed.object_meta
unfolding to_key
same_name = refl

new_generation_ignored_example :
    (reconcile
      (serving (ok changed))
      (retry_of ℕ)
      (retry_of (Error × Served ℕ))
      (retry_of (CounterMeasure × ℕ))
      aggregates
      no_sources
      name
      after_add
      fresh).1.0
    ≡ after_add
new_generation_ignored_example =
    new_generation_ignored (serving (ok changed)) (retry_of ℕ) (retry_of (Error × Served ℕ))
      (retry_of (CounterMeasure × ℕ)) aggregates no_sources name manager after_add fresh cm changed
      new_bus-IsValid added refl same_name
