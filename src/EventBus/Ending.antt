-- ===== src/EventBus/Ending.antt =====
-- pkg/eventbus/eventbus.go: the end of `Start`, as far as its workers go. The queue is shut down, so a
-- worker that runs finds nothing to do; `wait.Until` runs it again and again, until it receives from
-- the shutdown channel, which has no buffer. `Start` sends one value on it and comes back when that is
-- received. What `Start` does with the subscribers before is part of EventBus.Bus.
use k8s_countermeasures.Prelude.{
  ℕ, zero, suc, ◌+◌, ◌≡◌, refl, ◌∙◌, List, [], ◌∷◌, Bool, true, false, if◌then◌else◌, arith,
}

-- Which of the workers still loop, and whether the value was received.
pub record Ending : Type 0 where
  pub looping : List Bool
  pub received : Bool

-- `for i := 0; i < d.workers; i++ { go wait.Until(...) }`.
unfoldable pub start_workers : ℕ → List Bool
start_workers zero = []
start_workers (suc n) = true ∷ start_workers n

-- The value is sent when all workers are started.
unfoldable pub start_ending : ℕ → Ending
unfolding start_workers
start_ending workers = record { looping = start_workers workers; received = false }

-- The worker at a place stops.
unfoldable pub stop_worker : ℕ → List Bool → List Bool
stop_worker i [] = []
stop_worker zero (w ∷ ws) = false ∷ ws
stop_worker (suc i) (w ∷ ws) = w ∷ stop_worker i ws

abbrev pub is_looping : ℕ → List Bool → Bool
is_looping i [] = false
is_looping zero (w ∷ ws) = w
is_looping (suc i) (w ∷ ws) = is_looping i ws

pub data EndStep (s : Ending) : Ending → Type 0 where
  -- a worker runs once more, finds the queue shut down, and waits
  loops : (i : ℕ) → is_looping i s.looping ≡ true → EndStep s s
  -- a worker that loops receives the value, and `Start` comes back
  receives :
      (i : ℕ)
      → is_looping i s.looping ≡ true
      → s.received ≡ false
      → EndStep s (record { looping = stop_worker i s.looping; received = true })

pub data EndSteps (s : Ending) : Ending → Type 0 where
  stays : EndSteps s s
  steps : {t u : Ending} → EndSteps s t → EndStep t u → EndSteps s u

abbrev pub count_looping : List Bool → ℕ
count_looping [] = zero
count_looping (true ∷ ws) = suc (count_looping ws)
count_looping (false ∷ ws) = count_looping ws

count_looping-start_workers : (n : ℕ) → count_looping (start_workers n) ≡ n
unfolding start_workers
count_looping-start_workers zero = refl
count_looping-start_workers (suc n) = omega (arith, count_looping-start_workers n)

count_looping-stop_worker :
    (i : ℕ) (ws : List Bool)
    → is_looping i ws ≡ true
    → count_looping (stop_worker i ws) + 1 ≡ count_looping ws
unfolding stop_worker
count_looping-stop_worker i [] h = ground (arith, h)
count_looping-stop_worker zero (true ∷ ws) h = omega arith
count_looping-stop_worker zero (false ∷ ws) h = ground (arith, h)
count_looping-stop_worker (suc i) (true ∷ ws) h = omega (arith, count_looping-stop_worker i ws h)
count_looping-stop_worker (suc i) (false ∷ ws) h = count_looping-stop_worker i ws h

abbrev pub count_received : Ending → ℕ
count_received s = if s.received then 1 else 0

-- The workers that loop, and the one that received the value.
abbrev pub accounted : Ending → ℕ
accounted s = count_looping s.looping + count_received s

accounted-EndStep : (s t : Ending) → EndStep s t → accounted t ≡ accounted s
accounted-EndStep s _ (loops i on) = refl
accounted-EndStep s _ (receives i on waiting) =
    ground (arith, count_looping-stop_worker i s.looping on, waiting)

accounted-EndSteps : (s t : Ending) → EndSteps s t → accounted t ≡ accounted s
accounted-EndSteps s _ stays = refl
accounted-EndSteps s _ (steps {t = t} {u = u} before step) =
    accounted-EndStep t u step ∙ accounted-EndSteps s t before

accounted-start_ending : (n : ℕ) → accounted (start_ending n) ≡ n
unfolding start_ending
accounted-start_ending n = omega (arith, count_looping-start_workers n)

-- The end of the bus stops one of its workers and no other: in every state that the workers get to,
-- all of them still loop while the value was not received, and one less than all from then on.
pub one_worker_stops :
    (n : ℕ) (t : Ending)
    → EndSteps (start_ending n) t
    → count_looping t.looping + (if t.received then 1 else 0) ≡ n
one_worker_stops n t run = accounted-EndSteps (start_ending n) t run ∙ accounted-start_ending n
