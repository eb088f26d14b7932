-- ===== src/Memory/Kept.antt =====
-- What the callers of both zz_generated.deepcopy.go rely on: a copy that is kept does not change with
-- the original, nor the original with the copy.
use k8s_countermeasures.Prelude.{ℕ, ◌≡◌, refl, Option, none, some, arith}
use k8s_countermeasures.Api.Types.{CounterMeasure}
use k8s_countermeasures.Sources.{Prometheus}
use k8s_countermeasures.Memory.Objects.{Cell, Pointer}
use k8s_countermeasures.Memory.Stored.{counter_measure-Storable, counter_measure_list-Storable}
use k8s_countermeasures.Memory.StoredSources.{prometheus-Storable, prometheus_list-Storable}
use k8s_countermeasures.Memory.Heap.{Heap, Command, Storable, copy_pointer, ◌>>=◌, pure}
use k8s_countermeasures.Memory.Readers.{Reader, read_pointer, with_old, with_new}
use k8s_countermeasures.Memory.Reading.{
  ForeignReads, Typed, ListOf, read_counter_measure, read_counter_measure_list, read_prometheus,
  read_prometheus_list,
}
use k8s_countermeasures.Memory.CounterMeasures.{
  ForeignCopies, RuntimeObject, as_object, deep_copy_counter_measure,
  deep_copy_counter_measure_list, counter_measure_list_object,
}
use k8s_countermeasures.Memory.Sources.{
  deep_copy_prometheus, deep_copy_prometheus_list, prometheus_list_object,
}
use k8s_countermeasures.Memory.Separation.{Copies, Extends, IsFresh, since, >>=-run}
use k8s_countermeasures.Memory.Separation.Forms.{Copies-pointer}
use k8s_countermeasures.Memory.Structs.{
  ForeignLaws, Copies-counter_measure, Copies-counter_measure_list, Copies-prometheus,
  Copies-prometheus_list,
}

-- A pointer that stands for an object is not nil.
read_pointer-address :
    {X V : Type 0} ⦃s : Storable X⦄ (read : X → Reader V) (q : Pointer) (h : Heap) (v : V)
    → read_pointer read q h ≡ some (some v)
    → (a : ℕ) × (q ≡ some a)
unfolding read_pointer
read_pointer-address read none h v e = absurd (cc)
read_pointer-address read (some a) h v e = (a, refl)

Extends-with_old : (n : ℕ) (w : ℕ → Option Cell) (h : Heap) → Extends (since n h) (with_old n w h)
Extends-with_old n w h a c found = ground arith

Extends-with_new :
    (w : ℕ → Option Cell) (g h : Heap) → IsFresh g → Extends g h → Extends g (with_new g.free w h)
Extends-with_new w g h fresh e a c found = ground (arith, fresh a, e a c)

module _ {X V : Type 0} ⦃s : Storable X⦄ {read : X → Reader V} {copy : X → Command X}
    (laws : Copies read copy) where
  pub copy_pointer-kept :
      (p : ℕ) (h : Heap) (v : V) (writes : ℕ → Option Cell)
      → IsFresh h
      → read_pointer read (some p) h ≡ some (some v)
      → (q : ℕ) × (h' : Heap) × (copy_pointer copy (some p) h ≡ some (some q, h'))
        × (read_pointer read (some q) (with_old h.free writes h') ≡ some (some v))
        × (read_pointer read (some p) (with_new h.free writes h') ≡ some (some v))
  copy_pointer-kept p h v writes fresh found =
      let both = Copies-pointer laws in
      let made = both.copied (some p) h.free h (some v) (omega arith) fresh found in
      let (q, at) = read_pointer-address read made.result (since h.free made.heap) v made.holds in
      (
        q,
        made.heap,
        rw (← at) made.runs,
        both.monotone (some q) (since h.free made.heap) (with_old h.free writes made.heap) (some v)
            (Extends-with_old h.free writes made.heap) (rw at at made.holds),
        both.monotone (some p) h (with_new h.free writes made.heap) (some v)
            (Extends-with_new writes h made.heap fresh made.extends) found,
      )

object_pointer-kept :
    {X V : Type 0} ⦃s : Storable X⦄ {read : X → Reader V} {copy : X → Command X}
    (laws : Copies read copy) (typed : ℕ → RuntimeObject) (p : ℕ) (h : Heap) (v : V)
    (writes : ℕ → Option Cell)
    → IsFresh h
    → read_pointer read (some p) h ≡ some (some v)
    → (q : ℕ) × (h' : Heap) × ((copy_pointer copy (some p) >>= λ c. pure (as_object typed c)) h
        ≡ some (typed q, h'))
      × (read_pointer read (some q) (with_old h.free writes h') ≡ some (some v))
      × (read_pointer read (some p) (with_new h.free writes h') ≡ some (some v))
object_pointer-kept {copy} laws typed p h v writes fresh found =
    let (q, h', runs, kept, left) = copy_pointer-kept laws p h v writes fresh found in
    (q, h', >>=-run (copy_pointer copy (some p)) (λ c. pure (as_object typed c)) h runs, kept, left)

module _ {reads : ForeignReads} {copies : ForeignCopies} (laws : ForeignLaws reads copies) (p : ℕ)
    (h : Heap) (writes : ℕ → Option Cell) (fresh : IsFresh h) where
  -- `DeepCopy` of a countermeasure never faults, and gives a new one that stands for the same type
  -- metadata, metadata, specification and status: it goes on doing so whatever is written to the
  -- memory that was in use before the copy, and the original goes on doing so whatever is written
  -- to the rest. The free memory is empty before the copy, and the pointers of the original lead
  -- to objects of their types.
  pub deep_copy_counter_measure-kept :
      (c : Typed CounterMeasure)
      → read_pointer (read_counter_measure reads) (some p) h ≡ some (some c)
      → (q : ℕ) × (h' : Heap) × (deep_copy_counter_measure copies (some p) h ≡ some (some q, h'))
        × (read_pointer (read_counter_measure reads) (some q) (with_old h.free writes h')
            ≡ some (some c))
        × (read_pointer (read_counter_measure reads) (some p) (with_new h.free writes h')
            ≡ some (some c))
  unfolding deep_copy_counter_measure
  deep_copy_counter_measure-kept c found =
      copy_pointer-kept (Copies-counter_measure laws) p h c writes fresh found

  -- `DeepCopyObject` of a list of countermeasures never faults, and gives a new list, with its
  -- type, that stands for the same metadata and the same countermeasures in their order: it goes
  -- on doing so whatever is written to the memory that was in use before the copy, and the
  -- original goes on doing so whatever is written to the rest. The free memory is empty before the
  -- copy, and the pointers of the original lead to objects of their types.
  pub counter_measure_list_object-kept :
      (l : ListOf CounterMeasure)
      → read_pointer (read_counter_measure_list reads) (some p) h ≡ some (some l)
      → (q : ℕ) × (h' : Heap) × (counter_measure_list_object copies (some p) h
          ≡ some (RuntimeObject.counter_measure_list q, h'))
        × (read_pointer (read_counter_measure_list reads) (some q) (with_old h.free writes h')
            ≡ some (some l))
        × (read_pointer (read_counter_measure_list reads) (some p) (with_new h.free writes h')
            ≡ some (some l))
  unfolding counter_measure_list_object deep_copy_counter_measure_list
  counter_measure_list_object-kept l found =
      object_pointer-kept (Copies-counter_measure_list laws) RuntimeObject.counter_measure_list p h
        l writes fresh found

  -- The same of a source.
  pub deep_copy_prometheus-kept :
      (c : Typed Prometheus)
      → read_pointer (read_prometheus reads) (some p) h ≡ some (some c)
      → (q : ℕ) × (h' : Heap) × (deep_copy_prometheus copies (some p) h ≡ some (some q, h'))
        × (read_pointer (read_prometheus reads) (some q) (with_old h.free writes h')
            ≡ some (some c))
        × (read_pointer (read_prometheus reads) (some p) (with_new h.free writes h')
            ≡ some (some c))
  unfolding deep_copy_prometheus
  deep_copy_prometheus-kept c found =
      copy_pointer-kept (Copies-prometheus laws) p h c writes fresh found

  -- `DeepCopyObject` of a list of Prometheus sources never faults, and gives a new list, with its
  -- type, that stands for the same metadata and the same sources in their order: it goes on doing
  -- so whatever is written to the memory that was in use before the copy, and the original goes on
  -- doing so whatever is written to the rest. The free memory is empty before the copy, and the
  -- pointers of the original lead to objects of their types.
  pub prometheus_list_object-kept :
      (l : ListOf Prometheus)
      → read_pointer (read_prometheus_list reads) (some p) h ≡ some (some l)
      → (q : ℕ) × (h' : Heap) × (prometheus_list_object copies (some p) h
          ≡ some (RuntimeObject.prometheus_list q, h'))
        × (read_pointer (read_prometheus_list reads) (some q) (with_old h.free writes h')
            ≡ some (some l))
        × (read_pointer (read_prometheus_list reads) (some p) (with_new h.free writes h')
            ≡ some (some l))
  unfolding prometheus_list_object deep_copy_prometheus_list
  prometheus_list_object-kept l found =
      object_pointer-kept (Copies-prometheus_list laws) RuntimeObject.prometheus_list p h l writes
        fresh found
