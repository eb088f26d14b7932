-- ===== src/Lib.antt =====
-- Verification of k8s-countermeasures, an operator that reacts to alerts of a Kubernetes cluster by
-- actions on it.
--
-- The program. A Prometheus source (pkg/producer/prometheus) polls alerts, turns those that are
-- active into events (pkg/events) and publishes them on the bus (pkg/eventbus) under a topic made of
-- the alert and the source. The workers of the bus send each event to the subscribers of its topic
-- and of the topics around it. A countermeasure (apis/countermeasure/v1alpha1) names an event and the
-- actions to take; the manager of actions (pkg/actions/manager.go) subscribes it, and for each event
-- that arrives asks the state (pkg/actions/state) whether it is suppressed, has the registry
-- (pkg/actions/action.go) build a runner, and lets it perform the actions (pkg/actions/delete.go,
-- patch.go, debug.go, restart.go). The controllers (controllers/countermeasure and
-- controllers/eventsource) install and remove countermeasures and sources as their resources come
-- and go.
--
-- The files.
--   Prelude    tests, equality, texts as lists of bytes, Go maps as association lists, `int64` as ℤ
--   Manager    pkg/manager/base_manager.go: keys of managed objects
--   Outcome    Go's results: a value, an error or a panic
--   Events     pkg/events/events.go: events, their keys and topics; children for the hash, the order
--              of the labels and the laws of keys
--   EventBus   pkg/eventbus: Matcher is matcher.go, Bus the methods of eventbus.go with the channels,
--              System its workers at work, step by step, Ending how they stop, Consumers consumer.go;
--              their children are the proofs
--   Api        apis/countermeasure/v1alpha1: Types is countermeasure_types.go, Validation is
--              webhook_validation.go and countermeasure_webhook.go
--   Memory     the deep copies of both API groups, zz_generated.deepcopy.go, over a heap: Objects are
--              the structs with their pointers, CounterMeasures and Sources the copies, Reading what
--              the objects stand for, Separation, Structs and Kept the proofs
--   State      pkg/actions/state/state.go
--   Assets     assets/assets.go: the embedded patch
--   Actions    pkg/actions: Cluster is the interface of the libraries, Perform the four actions,
--              Registry and Runner action.go, Manager manager.go; of its children, Throttle compares
--              the rounds of a countermeasure with a description that knows only the limits of the
--              keys, and Firing and Acting follow an alert from the poll to the actions
--   Producer   pkg/producer: the Prometheus source, prometheus/prometheus.go and prometheus_source.go
--              (Client, Prometheus), and the manager of producers, manager.go (Registered)
--   Sources    apis/eventsource/v1alpha1: the sources, their defaults and their validation
--   Reconciler pkg/reconciler/reconciler.go
--   Status     how both controllers write the status of a resource
--   Controller controllers/countermeasure/countermeasure_controller.go: reconciliation
--   SourceController
--              controllers/eventsource/prometheus_controller.go: reconciliation
--   Main       main.go: the options of the manager, and the order of the set-up
--   Tests      the theorems at concrete inputs
--
-- How state is modelled. A method that holds a lock is one step, a function of the state; the
-- `Add` of the state, which locks twice, is two. Entries
-- that are reached by pointers are written by inserting the new value under their key. Channels are
-- numbered, and their buffers and whether they are closed are part of the bus. The rounds of one
-- countermeasure are a function of the state, which no other goroutine changes meanwhile; what a removal
-- in a round does is shown on its own (State/Deployment). The time and the
-- answers of the API server, of the templates and of Prometheus are arguments or the operations of an
-- interface (Cluster, Resources, Retry, WorkQueue, Aggregates), with what their documentation
-- promises as laws: a dry run is not persisted, a retry repeats only errors that may be retried, an
-- aggregate of no errors is nil. A panic is a result of its own. Times, durations and generations are
-- unbounded integers: their overflow at 64 bits is not modelled. A client's read may be stale: what is
-- shown of the debug container asks for a read that has caught up, and uses that Kubernetes keeps the
-- ephemeral containers of a pod.
--
-- Only the deep copies look at memory: an address holds an object of one type, a slice is a reference
-- to the array of all its elements, and the structs of the libraries are opaque, with their own copies
-- as the operations of an interface (ForeignCopies) whose law is that such a copy is separate. All
-- other modules take the resources by value; for the state of the actions the copy in Add allows it.
--
-- Fuel and choices. `SubscriberMatch` recurses on a shorter topic: its fuel is the number of parts of
-- the topic, which falls by one with each call, so it never runs out. The loop of `MergeConsumers` is
-- a round with the choice of `reflect.Select`, and events arrive on its channels between the rounds. The
-- workers of the bus are not scheduled: a step is one that any of them can take.
--
-- Not modelled: the metrics library, the HTTP client of Prometheus, the parsing of flags, the
-- registration with the manager of the operator, and logging.
pub mod Prelude
pub mod Manager
pub mod Memory
pub mod Outcome
pub mod Events
pub mod EventBus
pub mod Api
pub mod State
pub mod Assets
pub mod Actions
pub mod Producer
pub mod Sources
pub mod Reconciler
pub mod Status
pub mod Controller
pub mod Main
pub mod SourceController
pub mod Tests
