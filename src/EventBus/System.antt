-- ===== src/EventBus/System.antt =====
-- pkg/eventbus/eventbus.go: the bus at work. Any number of workers, publishers, subscribers and
-- consumers take their steps in any order. A worker holds the read lock from the match to the last
-- send, and each send is a step of its own, so that the workers interleave; a method that takes the
-- write lock waits until no worker delivers. The end of the bus is one step, of a state in
-- which no worker delivers. The program takes the read lock only for it: that the step is whole rests
-- on `ShutDownWithDrain`, which is documented to wait until the queue is drained and no worker holds an
-- item, and to let no item in. A worker runs an item in the way of
-- `processNextWorkItem`.
pub mod Safety
pub mod Progress
use k8s_countermeasures.Prelude.{
  Text, nat_eq, Map, ◌==◌, if◌then◌else◌, ℕ, Option, none, some, List, [], ◌∷◌, Bool, true, false,
  ◌≡◌,
}
use k8s_countermeasures.Events.{Event}
use k8s_countermeasures.EventBus.Matcher.{subscriber_match}
use k8s_countermeasures.EventBus.Bus.{
  Bus, Channel, Message, Item, valid, invalid, WorkQueue, new_bus, subscribe, unsubscribe, Sent,
  sent, not_ready, panicked, send, delivered, interrupted, finish, publish, receive, stop,
}

-- What a worker does: it waits for an item, or has a message to send to the channels that are left.
pub data Worker : Type 0 where
  idle : Worker
  delivering : Message → List ℕ → Worker

abbrev pub update : (ℕ → Worker) → ℕ → Worker → ℕ → Worker
update workers i w j = if j == i then w else workers j

module _ (q : WorkQueue) where
  pub record System : Type 0 where
    pub bus : Bus
    pub queue : q.Queue
    pub workers : ℕ → Worker

  abbrev pub AllIdle : System → Type 0
  AllIdle s = (i : ℕ) → s.workers i ≡ idle

  abbrev pub start : q.Queue → System
  start queue = record { bus = new_bus; queue = queue; workers = λ i. idle }

  -- A method that changes the bus, or panics.
  abbrev pub with_bus : System → Option Bus → Option System
  with_bus s none = none
  with_bus s (some b) = some (record s { bus = b })

  -- A worker takes an item off the queue, whose rest is given: it matches the topic under the read
  -- lock, or is done with the item at once.
  unfoldable pub take : System → ℕ → Item → q.Queue → System
  take s i invalid rest = record s { queue = q.done invalid (q.forget invalid rest) }
  take s i (valid m) rest =
      let (chs, ok) = subscriber_match s.bus.subscribers m.topic in
      if ok
      then record s { queue = rest; workers = update s.workers i (delivering m chs) }
      else record s { queue = q.done (valid m) (q.forget (valid m) rest) }

  unfoldable pub with_sent : System → ℕ → Message → List ℕ → Map ℕ Channel → System
  with_sent s i m chs channels = record s {
    bus = record s.bus { channels = channels };
    workers = update s.workers i (delivering m chs);
  }

  unfoldable pub with_full : System → ℕ → Message → System
  with_full s i m = record s {
    queue = finish q (valid m) s.queue interrupted;
    workers = update s.workers i idle;
  }

  -- A worker sends to the next channel; at one that is not ready it ends the delivery.
  unfoldable pub send_next : System → ℕ → Message → ℕ → List ℕ → Option System
  unfolding with_sent with_full
  send_next s i m ch chs = elim (send ch m.event s.bus.channels) [
    | sent channels ↦ some (with_sent s i m chs channels)
    | not_ready ↦ some (with_full s i m)
    | panicked ↦ none
  ]

  unfoldable pub end_delivery : System → ℕ → Message → System
  end_delivery s i m = record s {
    queue = finish q (valid m) s.queue delivered;
    workers = update s.workers i idle;
  }

  unfoldable pub read : System → ℕ → System
  read s ch = record s { bus = record s.bus { channels = (receive ch s.bus.channels).1 } }

  -- A step ends in a state, or in a panic.
  pub data Step (s : System) : Option System → Type 0 where
    subscribes :
        (topic : Text) → AllIdle s → Step s (some (record s { bus = (subscribe s.bus topic).1 }))
    unsubscribes :
        (topic : Text) (ch : ℕ) → AllIdle s → Step s (with_bus s (unsubscribe s.bus topic ch))
    publishes :
        (topic : Text) (event : Event)
        → Step s (some (record s { queue = publish q topic event s.queue }))
    takes :
        (i : ℕ) (item : Item) (rest : q.Queue)
        → s.workers i ≡ idle
        → q.get s.queue ≡ (some item, rest)
        → Step s (some (take s i item rest))
    sends :
        (i : ℕ) (m : Message) (ch : ℕ) (chs : List ℕ)
        → s.workers i ≡ delivering m (ch ∷ chs)
        → Step s (send_next s i m ch chs)
    ends :
        (i : ℕ) (m : Message) → s.workers i ≡ delivering m [] → Step s (some (end_delivery s i m))
    receives : (ch : ℕ) → Step s (some (read s ch))
    stops : AllIdle s → Step s (with_bus s (stop s.bus))

  pub data Steps (s : System) : System → Type 0 where
    here : Steps s s
    next : {t u : System} → Steps s t → Step t (some u) → Steps s u
