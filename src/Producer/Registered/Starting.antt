-- ===== src/Producer/Registered/Starting.antt =====
-- pkg/producer/manager.go: how far the start of the manager gets with its producers.
use mathlib.Core.List.{append_assoc, append-nil}
use k8s_countermeasures.Prelude.{
  Map, none, some, List, [], ◌∷◌, ◌++◌, map, true, false, ◌≡◌, refl, sym, ap, subst, ◌∙◌, arith,
  ◌⊎◌, inl, inr,
}
use k8s_countermeasures.Manager.{ObjectKey, namespaced_name_eq, object_key_eq}
use k8s_countermeasures.Outcome.{Error}
use k8s_countermeasures.Producer.Registered.{
  KeyedEventProducer, Manager, Start, returns, blocks, Loop, finished, failed_with, blocked,
  start_loop, start_producers, start, start_event_producer,
}

abbrev pub Producers : Type 0 → Type 0
Producers P = Map ObjectKey (KeyedEventProducer P)

Start-cases :
    (s : Start) → (s ≡ blocks) ⊎ (((e : Error) × (s ≡ returns (some e))) ⊎ (s ≡ returns none))
Start-cases blocks = inl refl
Start-cases (returns none) = inr (inr refl)
Start-cases (returns (some e)) = inr (inl (e, refl))

module _ {P : Type 0} where
  abbrev pub values : Producers P → List (KeyedEventProducer P)
  values = map (λ e. e.1)

  -- Every one of them started and came back without an error.
  abbrev pub AllReturned : (KeyedEventProducer P → Start) → Producers P → Type 0
  AllReturned start [] = Unit {0}
  AllReturned start ((k, p) ∷ rest) = (start p ≡ returns none) × AllReturned start rest

  -- How far the loop over the producers got.
  pub data Started (start : KeyedEventProducer P → Start) (ps : Producers P)
      (before after : List (KeyedEventProducer P)) (l : Loop) : Type 0 where
    all_started :
        l ≡ finished
        → AllReturned start ps
        → after ≡ before ++ values ps
        → Started start ps before after l
    one_stopped :
        (done : Producers P) (k : ObjectKey) (p : KeyedEventProducer P) (rest : Producers P)
        (e : Error)
        → l ≡ failed_with e
        → ps ≡ done ++ (k, p) ∷ rest
        → AllReturned start done
        → start p ≡ returns (some e)
        → after ≡ before ++ (values done ++ p ∷ [])
        → Started start ps before after l
    one_blocked :
        (done : Producers P) (k : ObjectKey) (p : KeyedEventProducer P) (rest : Producers P)
        → l ≡ blocked
        → ps ≡ done ++ (k, p) ∷ rest
        → AllReturned start done
        → start p ≡ blocks
        → after ≡ before ++ (values done ++ p ∷ [])
        → Started start ps before after l

  Started-cons :
      (start : KeyedEventProducer P → Start) (k : ObjectKey) (p : KeyedEventProducer P)
      (rest : Producers P) (before after : List (KeyedEventProducer P)) (l : Loop)
      → start p ≡ returns none
      → Started start rest (before ++ p ∷ []) after l
      → Started start ((k, p) ∷ rest) before after l
  Started-cons start k p rest before after l h (all_started e all v) =
      all_started e (h, all) (v ∙ append_assoc before (p ∷ []) (values rest))
  Started-cons start k p rest before after l h (one_stopped done j q more x e split all s v) =
      one_stopped ((k, p) ∷ done) j q more x e (ap (λ t. (k, p) ∷ t) split) (h, all) s
        (v ∙ append_assoc before (p ∷ []) (values done ++ q ∷ []))
  Started-cons start k p rest before after l h (one_blocked done j q more e split all s v) =
      one_blocked ((k, p) ∷ done) j q more e (ap (λ t. (k, p) ∷ t) split) (h, all) s
        (v ∙ append_assoc before (p ∷ []) (values done ++ q ∷ []))

  abbrev StartedAt :
      (KeyedEventProducer P → Start)
      → Producers P
      → List (KeyedEventProducer P)
      → Loop × List (KeyedEventProducer P)
      → Type 0
  StartedAt start ps before r = Started start ps before r.1 r.0

  -- One step of the loop, by what `Start` does.
  abbrev next_step :
      (KeyedEventProducer P → Start)
      → KeyedEventProducer P
      → Producers P
      → List (KeyedEventProducer P)
      → Start
      → Loop × List (KeyedEventProducer P)
  next_step start p rest before blocks = (blocked, before ++ p ∷ [])
  next_step start p rest before (returns (some e)) = (failed_with e, before ++ p ∷ [])
  next_step start p rest before (returns none) = start_loop start rest (before ++ p ∷ [])

  start_loop-cons :
      (start : KeyedEventProducer P → Start) (k : ObjectKey) (p : KeyedEventProducer P)
      (rest : Producers P) (before : List (KeyedEventProducer P))
      → start_loop start ((k, p) ∷ rest) before ≡ next_step start p rest before (start p)
  unfolding start_loop
  start_loop-cons start k p rest before = ground arith

  start_loop-Started :
      (start : KeyedEventProducer P → Start) (ps : Producers P)
      (before : List (KeyedEventProducer P))
      → StartedAt start ps before (start_loop start ps before)
  start_loop-Started start [] before =
      unfold start_loop in all_started refl tt (sym (append-nil before))
  start_loop-Started start ((k, p) ∷ rest) before =
      subst (StartedAt start ((k, p) ∷ rest) before) (sym (start_loop-cons start k p rest before))
        (elim (Start-cases (start p)) [
          | inl h ↦ rw h (one_blocked [] k p rest refl refl tt h refl)
          | inr (inl (e, h)) ↦ rw h (one_stopped [] k p rest e refl refl tt h refl)
          | inr (inr h) ↦ rw h (
              Started-cons start k p rest before _ _ h
                (start_loop-Started start rest (before ++ p ∷ [])))
        ])

  -- The start of the manager runs its producers in the order of the map, each once, up to the first
  -- whose `Start` fails or does not come back; the loop is over exactly when all came back without an
  -- error, fails with that error, or is stuck in the one that blocks, with the lock held. The producers
  -- that the manager has stay what they were.
  pub start_producers-Started :
      (start : KeyedEventProducer P → Start) (m : Manager P)
      → Started start m.producers m.started
          (start_producers start m).1.started
          (start_producers start m).0
        × ((start_producers start m).1.producers ≡ m.producers)
        × ((start_producers start m).1.is_started ≡ true)
  unfolding start_producers
  start_producers-Started start m = (start_loop-Started start m.producers m.started, refl, refl)

  Producers-cases :
      (ps : Producers P)
      → (ps ≡ [])
        ⊎ ((k : ObjectKey) × (p : KeyedEventProducer P) × (rest : Producers P) × (ps
              ≡ (k, p) ∷ rest))
  Producers-cases [] = inl refl
  Producers-cases ((k, p) ∷ rest) = inr (k, p, rest, refl)

  -- The manager of the program's producers, which come back when its shutdown channel closes, ends only
  -- if it has none when it starts: then its start closes the channel and changes nothing else. If it has
  -- any, its start hangs in the first of them, whose end would need the closing that comes after it: no
  -- other producer is started, and the start never ends.
  pub start_hangs :
      (m : Manager P)
      → ((m.producers ≡ [])
          × (start (λ p. start_event_producer false) m
              ≡ some (record m { is_started = true; is_closed = true })))
        ⊎ ((k : ObjectKey) × (p : KeyedEventProducer P) × (rest : Producers P) × (m.producers
              ≡ (k, p) ∷ rest)
            × (start (λ p. start_event_producer false) m ≡ none)
            × ((start_producers (λ p. start_event_producer false) m).0 ≡ blocked)
            × ((start_producers (λ p. start_event_producer false) m).1.started
                ≡ m.started ++ p ∷ []))
  unfolding start start_producers start_loop start_event_producer
  start_hangs m = elim (Producers-cases m.producers) [
    | inl e ↦ inl (e, ground (arith, e))
    | inr (k, p, rest, e) ↦
        inr (k, p, rest, e, ground (arith, e), ground (arith, e), ground (arith, e))
  ]
