-- ===== src/Tests/ConsumerTests.antt =====
-- Consumers, alone and merged, at concrete inputs.
use k8s_countermeasures.Prelude.{
  ◌++◌, nat_eq, lookup, insert, ℕ, Option, some, List, [], ◌∷◌, true, false, ◌≡◌, refl,
}
use k8s_countermeasures.EventBus.Bus.{receive, closed, send, sent}
use k8s_countermeasures.EventBus.Bus.Sending.{Channels, buffer_of}
use k8s_countermeasures.EventBus.Consumers.{
  empty_event, nth_case, merge, relay, Relay, RelaySteps, here, next, turns, arrives,
}
use k8s_countermeasures.EventBus.Consumers.Relaying.{
  taken_off, Relays, begin, arrived_along, relay_keeps_order,
}
use k8s_countermeasures.EventBus.Consumers.Stopping.{closed_channel_strands}
use k8s_countermeasures.Tests.Fixtures.{event}

-- One channel is open with two events, the other closed with one.
abbrev channels : Channels
channels =
    (0, record { buffer = event ∷ event ∷ []; closed = false })
    ∷ (1, record { buffer = event ∷ []; closed = true })
    ∷ []

abbrev cases : List (Option ℕ)
cases = some 0 ∷ some 1 ∷ []

-- The event of the closed channel is sent on, another arrives on the open one, and one of its is sent on.
abbrev first_read : Relay
first_read = relay cases 1 (begin channels)

abbrev more : Channels
more =
    (0, record { buffer = event ∷ event ∷ event ∷ []; closed = false })
    ∷ (1, record { buffer = []; closed = true })
    ∷ []

one_arrives : send 0 event first_read.channels ≡ sent more
unfolding relay merge nth_case receive send lookup insert
one_arrives = refl

abbrev second_read : Relay
second_read = relay cases 0 (record first_read { channels = more })

reads : RelaySteps cases (begin channels) second_read
reads = next (next (next here (turns 1)) (arrives 0 event more one_arrives)) (turns 0)

both_read : second_read.relayed ≡ event ∷ event ∷ []
unfolding relay merge nth_case receive lookup insert
both_read = refl

relay_keeps_order_example : Relays cases channels (arrived_along reads) second_read
relay_keeps_order_example = relay_keeps_order cases channels reads

-- The closed channel is chosen again, and an event arrives on the open one, which would be chosen next.
at_second : nth_case 1 cases ≡ some (some 1)
unfolding nth_case
at_second = refl

drained : receive 1 second_read.channels ≡ (closed, second_read.channels)
unfolding relay merge nth_case receive lookup insert
drained = refl

up : second_read.running ≡ true
unfolding relay merge nth_case receive lookup insert
up = refl

abbrev stopped : Relay
stopped = relay cases 1 second_read

one_more : send 0 event stopped.channels ≡ sent more
unfolding relay merge nth_case receive send lookup insert
one_more = refl

strands : RelaySteps cases stopped (relay cases 0 (record stopped { channels = more }))
strands = next (next here (arrives 0 event more one_more)) (turns 0)

closed_channel_strands_example :
    ((relay cases 0 (record stopped { channels = more })).relayed
      ≡ second_read.relayed ++ empty_event ∷ [])
    × ((j : ℕ)
        → buffer_of j (relay cases 0 (record stopped { channels = more })).channels
          ≡ buffer_of j second_read.channels ++ taken_off j (arrived_along strands))
closed_channel_strands_example =
    closed_channel_strands cases 1 1 second_read up at_second drained strands
