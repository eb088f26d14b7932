-- ===== src/EventBus/Bus.antt =====
-- pkg/eventbus/eventbus.go: the bus. A method that holds the lock is one step on the state; a
-- channel is known by its number, and its buffer is part of the state. `none` is a panic: a send on
-- a closed channel, or the closing of one.
pub mod Sending
pub mod Invariant
pub mod Dispatch
pub mod Leaving
pub mod Shutdown
pub mod Receiving
pub mod Reaching
use k8s_countermeasures.Prelude.{
  Text, text_eq, nat_eq, Map, lookup, insert, ◌==◌, if◌then◌else◌, ltb, length, ℕ, suc, Option,
  none, some, List, [], ◌∷◌, ◌++◌, Bool, true, false,
}
use k8s_countermeasures.Events.{Event}
use k8s_countermeasures.EventBus.Matcher.{Subscribers, exact, subscriber_match}

abbrev pub consumer_buffer_size : ℕ
consumer_buffer_size = 10

pub record Channel : Type 0 where
  pub buffer : List Event
  pub closed : Bool

pub record Message : Type 0 where
  pub event : Event
  pub topic : Text

-- What comes off the queue: a message, or a value of another type.
pub data Item : Type 0 where
  valid : Message → Item
  invalid : Item

-- `workqueue.RateLimitingInterface`. `get` takes the next item off, or says that the queue is shut
-- down.
pub record WorkQueue : Type 1 where
  pub Queue : Type 0
  pub add : Item → Queue → Queue
  pub get : Queue → Option Item × Queue
  pub done : Item → Queue → Queue
  pub forget : Item → Queue → Queue
  pub add_rate_limited : Item → Queue → Queue

-- The channels that were made, and the subscribers of each topic.
pub record Bus : Type 0 where
  pub subscribers : Subscribers
  pub channels : Map ℕ Channel
  pub next_channel : ℕ

abbrev pub new_bus : Bus
new_bus = record { subscribers = []; channels = []; next_channel = 0 }

-- The consumer is its topic and its channel.
unfoldable pub subscribe : Bus → Text → ℕ × Bus
subscribe b topic = (
  b.next_channel,
  record {
    subscribers = insert topic (exact b.subscribers topic ++ b.next_channel ∷ []) b.subscribers;
    channels = insert b.next_channel (record { buffer = []; closed = false }) b.channels;
    next_channel = suc b.next_channel;
  },
)

-- `append(subscribers[:idx], subscribers[idx+1:]...)` at the first occurrence, if there is one.
unfoldable pub remove_first : ℕ → List ℕ → Option (List ℕ)
remove_first ch [] = none
remove_first ch (c ∷ cs) =
    if ch == c
    then some cs
    else elim (remove_first ch cs) [ none ↦ none | some rest ↦ some (c ∷ rest) ]

-- `close(ch)`: of a nil channel or a closed one it panics.
unfoldable pub close : ℕ → Map ℕ Channel → Option (Map ℕ Channel)
close ch channels = elim (lookup ch channels) [
  | none ↦ none
  | some c ↦
      if c.closed
      then none
      else some (insert ch (record { buffer = c.buffer; closed = true }) channels)
]

unfoldable pub unsubscribe : Bus → Text → ℕ → Option Bus
unfolding remove_first close
unsubscribe b topic ch = elim (remove_first ch (exact b.subscribers topic)) [
  | none ↦ some b
  | some rest ↦ elim (close ch b.channels) [
    | none ↦ none
    | some channels ↦ some (record {
      subscribers = insert topic rest b.subscribers;
      channels = channels;
      next_channel = b.next_channel;
    })
  ]
]

pub data Sent : Type 0 where
  sent : Map ℕ Channel → Sent
  not_ready : Sent
  panicked : Sent

-- `select { case ch <- event: default: }`
unfoldable pub send : ℕ → Event → Map ℕ Channel → Sent
send ch event channels = elim (lookup ch channels) [
  | none ↦ not_ready
  | some c ↦
      if c.closed
      then panicked
      else if ltb (length c.buffer) consumer_buffer_size
      then sent (insert ch (record { buffer = c.buffer ++ event ∷ []; closed = false }) channels)
      else not_ready
]

pub data Delivery : Type 0 where
  delivered : Delivery
  interrupted : Delivery

-- The loop over the subscribers: it stops at the first that is not ready.
unfoldable pub deliver : List ℕ → Event → Map ℕ Channel → Option (Delivery × Map ℕ Channel)
unfolding send
deliver [] event channels = some (delivered, channels)
deliver (ch ∷ chs) event channels = elim (send ch event channels) [
  | sent channels' ↦ deliver chs event channels'
  | not_ready ↦ some (interrupted, channels)
  | panicked ↦ none
]

module _ (q : WorkQueue) where
  open q use {Queue, add, get, done, forget, add_rate_limited}

  unfoldable pub publish : Text → Event → Queue → Queue
  publish topic event queue = add (valid (record { event = event; topic = topic })) queue

  abbrev pub finish : Item → Queue → Delivery → Queue
  finish item queue delivered = done item (forget item queue)
  finish item queue interrupted = done item (add_rate_limited item queue)

  -- The function that `processNextWorkItem` runs on an item.
  unfoldable pub process : Item → Bus → Queue → Option (Bus × Queue)
  unfolding deliver
  process invalid b queue = some (b, done invalid (forget invalid queue))
  process (valid m) b queue =
      let (subscribers, ok) = subscriber_match b.subscribers m.topic in
      if ok
      then elim (deliver subscribers m.event b.channels) [
        | none ↦ none
        | some (d, channels) ↦ some (record b { channels = channels }, finish (valid m) queue d)
      ]
      else some (b, done (valid m) (forget (valid m) queue))

  -- The flag says whether the worker goes on.
  unfoldable pub process_next_work_item : Bus → Queue → Option (Bool × Bus × Queue)
  unfolding process
  process_next_work_item b queue =
      let (next, rest) = get queue in
      elim next [
        | none ↦ some (false, b, rest)
        | some item ↦ elim (process item b rest) [
          | none ↦ none
          | some (b', queue') ↦ some (true, b', queue')
        ]
      ]

unfoldable pub close_all : List ℕ → Map ℕ Channel → Option (Map ℕ Channel)
unfolding close
close_all [] channels = some channels
close_all (ch ∷ chs) channels = elim (close ch channels) [
  | none ↦ none
  | some channels' ↦ close_all chs channels'
]

unfoldable pub close_topics : Subscribers → Map ℕ Channel → Option (Map ℕ Channel)
unfolding close_all
close_topics [] channels = some channels
close_topics ((topic, chs) ∷ rest) channels = elim (close_all chs channels) [
  | none ↦ none
  | some channels' ↦ close_topics rest channels'
]

-- The end of `Start`, after the queue has been drained.
unfoldable pub stop : Bus → Option Bus
unfolding close_topics
stop b = elim (close_topics b.subscribers b.channels) [
  | none ↦ none
  | some channels ↦
      some (record { subscribers = []; channels = channels; next_channel = b.next_channel })
]

-- What a consumer reads: an event, nothing because the channel is closed, or it waits.
pub data Received : Type 0 where
  event : Event → Received
  closed : Received
  waits : Received

unfoldable pub receive : ℕ → Map ℕ Channel → Received × Map ℕ Channel
receive ch channels = elim (lookup ch channels) [
  | none ↦ (waits, channels)
  | some c ↦ elim c.buffer [
    | [] ↦ (if c.closed then closed else waits, channels)
    | e ∷ rest ↦ (event e, insert ch (record { buffer = rest; closed = c.closed }) channels)
  ]
]
