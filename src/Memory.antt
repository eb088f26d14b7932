-- ===== src/Memory.antt =====
-- apis/countermeasure/v1alpha1/zz_generated.deepcopy.go and
-- apis/eventsource/v1alpha1/zz_generated.deepcopy.go: the deep copies of the resources, over a heap of
-- objects that hold pointers and slices. The manager of actions gives such a copy to the state
-- (pkg/actions/manager.go, Add), which keeps it longer than its caller keeps the original; the caches
-- of the libraries copy by DeepCopyObject.
pub mod Objects
pub mod Heap
pub mod Stored
pub mod StoredSources
pub mod CounterMeasures
pub mod Sources
pub mod Readers
pub mod Reading
pub mod Separation
pub mod Structs
pub mod Kept
