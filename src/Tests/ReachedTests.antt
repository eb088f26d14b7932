-- ===== src/Tests/ReachedTests.antt =====
-- An alert's way to a countermeasure at concrete inputs.
use k8s_countermeasures.Prelude.{Option, none, []}
use k8s_countermeasures.Outcome.{Error}
use k8s_countermeasures.Api.Types.{LabelSelector}
use k8s_countermeasures.EventBus.Bus.{new_bus}
use k8s_countermeasures.Actions.Manager.{Manager}

abbrev no_sources : LabelSelector → Option Error
no_sources selector = none

abbrev manager : Manager
manager = record { consumers = []; state = record { measures = [] }; bus = new_bus }
