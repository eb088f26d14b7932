-- ===== src/Tests/MemoryTests.antt =====
-- Deep copies at concrete resources in memory.
use k8s_countermeasures.Prelude.{ℕ, ◌≡◌, refl, some}
use k8s_countermeasures.Memory.Stored.{
  foreign-Storable, string-Storable, counter_measure-Storable, counter_measure_list-Storable,
}
use k8s_countermeasures.Memory.StoredSources.{prometheus-Storable, prometheus_list-Storable}
use k8s_countermeasures.Memory.Heap.{Heap}
use k8s_countermeasures.Memory.Readers.{
  read_pointer, object_at, read_slice, read_elements, with_old, with_new,
}
use k8s_countermeasures.Memory.Reading.{
  read_action, read_debug, read_policy, read_on_event, read_spec, read_status, read_counter_measure,
  read_counter_measure_list, read_service, read_prometheus_spec, read_prometheus_status,
  read_prometheus, read_prometheus_list,
}
use k8s_countermeasures.Memory.CounterMeasures.{
  RuntimeObject, deep_copy_counter_measure, counter_measure_list_object,
}
use k8s_countermeasures.Memory.Sources.{prometheus_list_object}
use k8s_countermeasures.Memory.Kept.{
  deep_copy_counter_measure-kept, counter_measure_list_object-kept, prometheus_list_object-kept,
}
use k8s_countermeasures.Tests.MemoryFixtures.{
  reads, copies, laws, heap_of-IsFresh, cells, memory, freed,
}
use k8s_countermeasures.Tests.MemoryValues.{
  counter_measure_value, counter_measure_list_value, prometheus_list_value,
}

counter_measure_found :
    read_pointer (read_counter_measure reads) (some 0) memory ≡ some (some counter_measure_value)
unfolding read_pointer object_at read_slice read_elements read_counter_measure read_spec read_status
    read_on_event read_policy read_action read_debug
counter_measure_found = refl

counter_measure_list_found :
    read_pointer (read_counter_measure_list reads) (some 10) memory
    ≡ some (some counter_measure_list_value)
unfolding read_pointer object_at read_slice read_elements read_counter_measure_list
    read_counter_measure read_spec read_status read_on_event read_policy read_action read_debug
counter_measure_list_found = refl

prometheus_list_found :
    read_pointer (read_prometheus_list reads) (some 14) memory ≡ some (some prometheus_list_value)
unfolding read_pointer object_at read_slice read_elements read_prometheus_list read_prometheus
    read_prometheus_spec read_prometheus_status read_service
prometheus_list_found = refl

deep_copy_counter_measure-kept_example :
    (q : ℕ) × (h' : Heap) × (deep_copy_counter_measure copies (some 0) memory ≡ some (some q, h'))
    × (read_pointer (read_counter_measure reads) (some q) (with_old 16 freed h')
        ≡ some (some counter_measure_value))
    × (read_pointer (read_counter_measure reads) (some 0) (with_new 16 freed h')
        ≡ some (some counter_measure_value))
deep_copy_counter_measure-kept_example =
    deep_copy_counter_measure-kept laws 0 memory freed (heap_of-IsFresh cells) counter_measure_value
      counter_measure_found

counter_measure_list_object-kept_example :
    (q : ℕ) × (h' : Heap) × (counter_measure_list_object copies (some 10) memory
      ≡ some (RuntimeObject.counter_measure_list q, h'))
    × (read_pointer (read_counter_measure_list reads) (some q) (with_old 16 freed h')
        ≡ some (some counter_measure_list_value))
    × (read_pointer (read_counter_measure_list reads) (some 10) (with_new 16 freed h')
        ≡ some (some counter_measure_list_value))
counter_measure_list_object-kept_example =
    counter_measure_list_object-kept laws 10 memory freed (heap_of-IsFresh cells)
      counter_measure_list_value counter_measure_list_found

prometheus_list_object-kept_example :
    (q : ℕ) × (h' : Heap) × (prometheus_list_object copies (some 14) memory
      ≡ some (RuntimeObject.prometheus_list q, h'))
    × (read_pointer (read_prometheus_list reads) (some q) (with_old 16 freed h')
        ≡ some (some prometheus_list_value))
    × (read_pointer (read_prometheus_list reads) (some 14) (with_new 16 freed h')
        ≡ some (some prometheus_list_value))
prometheus_list_object-kept_example =
    prometheus_list_object-kept laws 14 memory freed (heap_of-IsFresh cells) prometheus_list_value
      prometheus_list_found
