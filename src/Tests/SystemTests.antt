-- ===== src/Tests/SystemTests.antt =====
-- The steps of the bus at concrete inputs.
use k8s_countermeasures.Prelude.{
  codes, text_eq, nat_eq, lookup, insert, split, join, init, Text, ℕ, none, some, [], ◌∷◌, true,
  false, ◌+◌, ◌==◌, if◌then◌else◌, ◌≡◌, ◌≢◌, refl,
}
use k8s_countermeasures.EventBus.Matcher.{
  exact, append_if, found, subscriber_match_fuel, subscriber_match,
}
use k8s_countermeasures.EventBus.Bus.{
  Bus, Message, valid, new_bus, subscribe, publish, stop, Delivery,
}
use k8s_countermeasures.EventBus.Bus.Sending.{is_open, buffer_of}
use k8s_countermeasures.EventBus.Bus.Invariant.{IsValid, new_bus-IsValid, subscribe-IsValid}
use k8s_countermeasures.EventBus.Bus.Shutdown.{total, stop_closes}
use k8s_countermeasures.EventBus.Ending.{
  EndStep, EndSteps, start_ending, start_workers, stop_worker, count_looping, one_worker_stops,
}
use k8s_countermeasures.EventBus.System.{
  delivering, System, start, take, send_next, subscribes, publishes, takes, sends, Steps, here,
  next,
}
use k8s_countermeasures.EventBus.System.Safety.{IsSafe, start-IsSafe, Steps-IsSafe, never_panics}
use k8s_countermeasures.EventBus.System.Progress.{IsDone, worker_finishes}
use k8s_countermeasures.Tests.Fixtures.{event, work_queue}

abbrev topic : Text
topic = codes "high"

abbrev message : Message
message = record { event = event; topic = topic }

abbrev subscribed_bus : Bus
subscribed_bus = (subscribe new_bus topic).1

stop_closes_example :
    (b' : Bus) × (stop subscribed_bus ≡ some b')
    × IsValid b'
    × (b'.subscribers ≡ [])
    × ((ch : ℕ)
        → is_open ch b'.channels ≡ (
            if total ch subscribed_bus.subscribers == 0
            then is_open ch subscribed_bus.channels
            else false))
    × ((ch : ℕ) → buffer_of ch b'.channels ≡ buffer_of ch subscribed_bus.channels)
stop_closes_example = stop_closes subscribed_bus (subscribe-IsValid new_bus topic new_bus-IsValid)

abbrev one_subscriber : System work_queue
one_subscriber = record (start work_queue []) { bus = subscribed_bus }

abbrev one_message : System work_queue
one_message = record one_subscriber { queue = publish work_queue topic event [] }

abbrev at_work : System work_queue
at_work = take work_queue one_message 0 (valid message) []

to_message : Steps work_queue (start work_queue []) one_message
to_message = next (next here (subscribes topic (λ i. refl))) (publishes topic event)

queued : publish work_queue topic event [] ≡ valid message ∷ []
unfolding publish
queued = refl

to_work : Steps work_queue (start work_queue []) at_work
unfolding publish
to_work = next to_message (takes 0 (valid message) [] refl refl)

matched : at_work.workers 0 ≡ delivering message (0 ∷ [])
unfolding take subscriber_match subscriber_match_fuel exact append_if found lookup insert subscribe
    split join init
matched = refl

never_panics_example : send_next work_queue at_work 0 message 0 [] ≢ none
never_panics_example = never_panics work_queue [] to_work (sends 0 message 0 [] matched)

worker_finishes_example :
    (t : System work_queue) × (d : Delivery) × Steps work_queue (start work_queue []) t
    × IsSafe work_queue t
    × IsDone work_queue at_work t 0 message (0 ∷ []) d
worker_finishes_example =
    worker_finishes work_queue at_work 0 message (0 ∷ []) to_work
      (Steps-IsSafe work_queue (start-IsSafe work_queue []) to_work) matched

-- Two workers, of which the first receives the value.
first_stops :
    EndSteps
      (start_ending 2)
      (record { looping = stop_worker 0 (start_ending 2).looping; received = true })
unfolding start_ending start_workers
first_stops = EndSteps.steps EndSteps.stays (EndStep.receives 0 refl refl)

one_worker_stops_example :
    count_looping (stop_worker 0 (start_ending 2).looping) + (if true then 1 else 0) ≡ 2
one_worker_stops_example =
    one_worker_stops 2
      (record { looping = stop_worker 0 (start_ending 2).looping; received = true }) first_stops
