-- ===== src/Producer/Registered.antt =====
-- pkg/producer/manager.go: the manager of producers. A producer is a value with a key. What `Start`
-- does, its retries included, is an argument: the producers of the program block in it until the
-- shutdown.
pub mod Starting
use k8s_countermeasures.Prelude.{
  Map, lookup, insert, delete_where, ◌==◌, if◌then◌else◌, Option, none, some, List, [], ◌∷◌, ◌++◌,
  Bool, true, false,
}
use k8s_countermeasures.Manager.{
  NamespacedName, ObjectMeta, ObjectKey, namespaced_name_eq, object_key_eq, to_key,
}
use k8s_countermeasures.Outcome.{Error}

-- A value behind the interface `KeyedEventProducer`, with its key.
pub record KeyedEventProducer (P : Type 0) : Type 0 where
  pub key : ObjectKey
  pub producer : P

-- `is_started` says whether the channel `shutdown` has been made, `is_closed` whether it is closed.
-- `started` is no field of the program: it is a log of the producers whose `Start` the manager has
-- called, in order. It says nothing of whether they still run.
pub record Manager (P : Type 0) : Type 0 where
  pub is_started : Bool
  pub is_closed : Bool
  pub producers : Map ObjectKey (KeyedEventProducer P)
  pub started : List (KeyedEventProducer P)

-- How a call of `Start` goes.
pub data Start : Type 0 where
  returns : Option Error → Start
  blocks : Start

-- How the loop ends: over, at an error, or never, with the lock held.
pub data Loop : Type 0 where
  finished : Loop
  failed_with : Error → Loop
  blocked : Loop

-- `EventProducer.Start` of pkg/producer/prometheus: it polls beside, and comes back when `done` closes.
unfoldable pub start_event_producer : Bool → Start
start_event_producer done = if done then returns none else blocks

module _ {P : Type 0} where
  unfoldable pub new_manager : Manager P
  new_manager = record { is_started = false; is_closed = false; producers = []; started = [] }

  unfoldable pub remove : Manager P → NamespacedName → Manager P
  remove m name = record m { producers = delete_where (λ k. k.namespaced_name == name) m.producers }

  unfoldable pub exists : Manager P → ObjectMeta → Bool
  unfolding to_key
  exists m meta = elim (lookup (to_key meta) m.producers) [ none ↦ false | some _ ↦ true ]

  unfoldable pub add : Manager P → KeyedEventProducer P → Manager P
  add m p = record m {
    producers = insert p.key p m.producers;
    started = if m.is_started then m.started ++ p ∷ [] else m.started;
  }

  -- The loop over the map, in the order in which Go walks it.
  unfoldable pub start_loop :
      (KeyedEventProducer P → Start)
      → Map ObjectKey (KeyedEventProducer P)
      → List (KeyedEventProducer P)
      → Loop × List (KeyedEventProducer P)
  start_loop start [] started = (finished, started)
  start_loop start ((k, p) ∷ rest) started = elim (start p) [
    | blocks ↦ (blocked, started ++ p ∷ [])
    | returns o ↦ elim o [
      | some e ↦ (failed_with e, started ++ p ∷ [])
      | none ↦ start_loop start rest (started ++ p ∷ [])
    ]
  ]

  unfoldable pub start_producers : (KeyedEventProducer P → Start) → Manager P → Loop × Manager P
  unfolding start_loop
  start_producers start m =
      let (loop, started) = start_loop start m.producers m.started in
      (
        loop,
        record { is_started = true; is_closed = false; producers = m.producers; started = started },
      )

  -- `Start`, up to its end after the context is done; `none` if it never ends. The error of
  -- `startProducers` is dropped.
  unfoldable pub start : (KeyedEventProducer P → Start) → Manager P → Option (Manager P)
  unfolding start_producers
  start start_of m =
      let (loop, m') = start_producers start_of m in
      elim loop [
        | blocked ↦ none
        | failed_with e ↦ some (record m' { is_closed = true })
        | finished ↦ some (record m' { is_closed = true })
      ]
