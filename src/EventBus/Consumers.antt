-- ===== src/EventBus/Consumers.antt =====
-- pkg/eventbus/consumer.go: the consumers of the bus, alone and merged. A channel is known by its number,
-- as on the bus; a channel that is nil has none. Which ready channel `reflect.Select` takes is an
-- argument, its place among the cases, and so is the text of the time.
pub mod Merging
pub mod Relaying
pub mod Stopping
pub mod Leaving
use k8s_countermeasures.Prelude.{
  Text, codes, Map, ℕ, zero, suc, Option, none, some, List, [], ◌∷◌, ◌++◌, map, length, Bool, true,
  false, ◌≡◌, ltb, if◌then◌else◌,
}
use k8s_countermeasures.Prelude.Int.{pos}
use k8s_countermeasures.Outcome.{Error}
use k8s_countermeasures.Events.{Event}
use k8s_countermeasures.Events.Hash.{hash_text}
use k8s_countermeasures.EventBus.Bus.{
  Bus, Channel, send, sent, close, unsubscribe, receive, Received, event, closed, waits,
}

-- `ErrChannelClosed`, or the error of a context that is done.
pub data MergeError : Type 0 where
  channel_closed : MergeError
  context_done : Error → MergeError

-- The zero value of an event.
abbrev pub empty_event : Event
empty_event = record { name = []; active_time = pos 0; event_data = none }

pub record EventConsumer : Type 0 where
  pub topic : Text
  pub event_channel : ℕ
  pub consumer_id : Text

unfoldable pub new_consumer : Text → ℕ → Text → EventConsumer
new_consumer topic consumer_ch now = record {
  topic = topic;
  event_channel = consumer_ch;
  consumer_id = hash_text (topic ++ now);
}

-- What implements the interface: a consumer of the bus, or a set of consumers with its merged channel.
mutual
  pub data Consumer : Type 0 where
    event_consumer : EventConsumer → Consumer
    event_consumer_set : Consumers → ℕ → Consumer

  pub data Consumers : Type 0 where
    nil : Consumers
    cons : Consumer → Consumers → Consumers

unfoldable pub on_event : Consumer → ℕ
on_event (event_consumer c) = c.event_channel
on_event (event_consumer_set consumers merged_ch) = merged_ch

unfoldable pub channels_of : Consumers → List (Option ℕ)
unfolding on_event
channels_of nil = []
channels_of (cons c cs) = some (on_event c) ∷ channels_of cs

unfoldable mutual
  pub id : Consumer → Text
  id (event_consumer c) = c.consumer_id
  id (event_consumer_set consumers merged_ch) = hash_text (ids consumers)

  pub ids : Consumers → Text
  ids nil = []
  ids (cons c cs) = id c ++ ids cs

-- `UnSubscribe`; of a set, each of its consumers in turn.
unfoldable mutual
  pub un_subscribe : Consumer → Bus → Option Bus
  un_subscribe (event_consumer c) b = unsubscribe b c.topic c.event_channel
  un_subscribe (event_consumer_set consumers merged_ch) b = un_subscribe_all consumers b

  pub un_subscribe_all : Consumers → Bus → Option Bus
  un_subscribe_all nil b = some b
  un_subscribe_all (cons c cs) b = elim (un_subscribe c b) [
    | none ↦ none
    | some b' ↦ un_subscribe_all cs b'
  ]

-- What a call of `Merge` has come to: it waits, or returns an event and an error.
pub data Merged : Type 0 where
  blocked : Merged
  returned : Event → Option MergeError → Merged

-- The case at the given place; the one after the channels is the context, whose error is given if it
-- is done.
unfoldable pub nth_case : ℕ → List (Option ℕ) → Option (Option ℕ)
nth_case n [] = none
nth_case zero (ch ∷ chs) = some ch
nth_case (suc n) (ch ∷ chs) = nth_case n chs

abbrev pub closed_error : Option Error → MergeError
closed_error none = channel_closed
closed_error (some e) = context_done e

abbrev pub from_received : Option Error → Received → Merged
from_received ctx_err (event e) = returned e none
from_received ctx_err closed = returned empty_event (some (closed_error ctx_err))
from_received ctx_err waits = blocked

unfoldable pub merge : Option Error → List (Option ℕ) → ℕ → Map ℕ Channel → Merged × Map ℕ Channel
unfolding nth_case
merge ctx_err chs chosen channels = elim (nth_case chosen chs) [
  | none ↦ (
    elim ctx_err [ none ↦ blocked | some e ↦ returned empty_event (some (context_done e)) ],
    channels,
  )
  | some none ↦ (blocked, channels)
  | some (some ch) ↦
      let (r, channels') = receive ch channels in (from_received ctx_err r, channels')
]

-- `OnEventSync` of a consumer, at the channel or at a context that is done.
unfoldable pub on_event_sync : Bool → EventConsumer → Map ℕ Channel → Option Event × Map ℕ Channel
on_event_sync done c channels =
    if done
    then (some empty_event, channels)
    else let (r, channels') = receive c.event_channel channels in
      (elim r [ event e ↦ some e | closed ↦ some empty_event | waits ↦ none ], channels')

-- `make([]<-chan events.Event, n)`.
abbrev pub nil_channels : Consumers → List (Option ℕ)
nil_channels nil = []
nil_channels (cons c cs) = none ∷ nil_channels cs

-- `OnEventSync` of a set: `append` adds the channels after as many that are nil.
unfoldable pub set_on_event_sync :
    Option Error → Consumers → ℕ → Map ℕ Channel → Option Event × Map ℕ Channel
unfolding merge channels_of
set_on_event_sync ctx_err consumers chosen channels =
    let (r, channels') =
      merge ctx_err (nil_channels consumers ++ channels_of consumers) chosen channels in
    (elim r [ blocked ↦ none | returned e error ↦ some e ], channels')

-- `ok = !errors.Is(err, ErrChannelClosed)`, if there is an error.
abbrev pub goes_on : Option MergeError → Bool
goes_on none = true
goes_on (some channel_closed) = false
goes_on (some (context_done e)) = true

-- The loop of `MergeConsumers`: the channels, what it has sent to the merged channel, in order, and
-- whether it still runs.
pub record Relay : Type 0 where
  pub channels : Map ℕ Channel
  pub relayed : List Event
  pub running : Bool

-- What the loop does with the result of `Merge`: it sends the event on, and ends at a closed channel.
abbrev pub after_merge : Merged → Map ℕ Channel → Relay → Relay
after_merge blocked channels r = record r { channels = channels }
after_merge (returned e error) channels r = record {
  channels = channels;
  relayed = r.relayed ++ e ∷ [];
  running = goes_on error;
}

-- One round of the loop, unless it has ended, with the choice of `reflect.Select`; at a channel that is
-- not ready the loop waits.
unfoldable pub relay : List (Option ℕ) → ℕ → Relay → Relay
unfolding merge
relay chs chosen r =
    if r.running
    then (let (m, channels) = merge none chs chosen r.channels in after_merge m channels r)
    else r

-- The loop at work: between its rounds the workers of the bus send events to the channels, and a
-- channel is closed. No one else reads the channels.
pub data RelayStep (chs : List (Option ℕ)) (r : Relay) : Relay → Type 0 where
  turns : (chosen : ℕ) → RelayStep chs r (relay chs chosen r)
  arrives :
      (ch : ℕ) (e : Event) (m : Map ℕ Channel)
      → send ch e r.channels ≡ sent m
      → RelayStep chs r (record r { channels = m })
  closes :
      (ch : ℕ) (m : Map ℕ Channel)
      → close ch r.channels ≡ some m
      → RelayStep chs r (record r { channels = m })

pub data RelaySteps (chs : List (Option ℕ)) (r : Relay) : Relay → Type 0 where
  here : RelaySteps chs r r
  next : {s t : Relay} → RelaySteps chs r s → RelayStep chs s t → RelaySteps chs r t

-- `MergeConsumers`: the set, and the channels that its loop reads.
unfoldable pub merge_consumers : Consumers → ℕ → Consumer × List (Option ℕ)
unfolding channels_of
merge_consumers consumers merged = (event_consumer_set consumers merged, channels_of consumers)
