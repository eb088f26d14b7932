-- ===== src/EventBus/Bus/Dispatch.antt =====
-- The dispatch of a message: whom it reaches, and that it never panics.
use mathlib.Core.List.{append-nil}
use k8s_countermeasures.Prelude.{
  Text, text_eq, nat_eq, is_empty, ℕ, ◌<◌, some, List, [], ◌∷◌, true, not, ◌≡◌, refl, sym, ◌∙◌, inl,
  inr, arith, Bool-cases,
}
use k8s_countermeasures.EventBus.Matcher.{Subscribers, exact, subscriber_match}
use k8s_countermeasures.EventBus.Matcher.Topics.{enclosing, subscribed, subscriber_match_lem}
use k8s_countermeasures.EventBus.Bus.{
  Bus, Message, valid, WorkQueue, Delivery, delivered, process, finish,
}
use k8s_countermeasures.EventBus.Bus.Sending.{
  count, count-append, Channels, is_open, AllOpen, AllOpen-of_count, SameChannels,
  SameChannels-refl, Delivers, to_all, deliver_open,
}
use k8s_countermeasures.EventBus.Bus.Invariant.{IsValid}

pub AllOpen_matched :
    (subs : Subscribers) (m : Channels) (ts : List Text)
    → ((t : Text) (ch : ℕ) → 0 < count ch (exact subs t) → is_open ch m ≡ true)
    → (ch : ℕ) → 0 < count ch (subscribed subs ts)
    → is_open ch m ≡ true
AllOpen_matched subs m [] h ch p = absurd (omega arith)
AllOpen_matched subs m (t ∷ ts) h ch p = elim (Bool-cases (is_open ch m)) [
  | inl e ↦ e
  | inr e ↦ ground (
    arith,
    count-append ch (exact subs t) (subscribed subs ts),
    h t ch,
    AllOpen_matched subs m ts h ch,
  )
]

pub with_channels-IsValid :
    (b : Bus) (m : Channels)
    → IsValid b
    → SameChannels b.channels m
    → IsValid (record b { channels = m })
with_channels-IsValid b m v same = record {
  live = λ t ch h. same.opened ch ∙ v.live t ch h;
  once = v.once;
  apart = v.apart;
  fresh = λ ch h. same.missing ch (v.fresh ch h);
  bounded = same.bounded v.bounded;
  distinct = v.distinct;
}

module _ (q : WorkQueue) where
  process_matched :
      (b : Bus) (m : Message) (queue : q.Queue) (chs : List ℕ)
      → subscriber_match b.subscribers m.topic ≡ (chs, not (is_empty chs))
      → AllOpen chs b.channels
      → (d : Delivery) × (channels : Channels) × (process q (valid m) b queue
          ≡ some (record b { channels = channels }, finish q (valid m) queue d))
        × SameChannels b.channels channels
        × Delivers chs m.event b.channels channels d
  unfolding process
  process_matched b m queue [] e ready = (
    delivered,
    b.channels,
    ground (arith, e),
    SameChannels-refl b.channels,
    to_all refl (λ j. sym (append-nil _)),
  )
  process_matched b m queue (ch ∷ chs) e ready =
      let (d, channels, h, same, all) = deliver_open (ch ∷ chs) m.event b.channels ready in
      (d, channels, ground (arith, e, h), same, all)

  -- Of a valid bus, the processing of a message never panics, leaves the bus valid and its
  -- subscribers as they were. The message goes to the subscribers of its topic and of the topics
  -- around it: either each of them has the event once more in its buffer, and the queue forgets the
  -- message; or one of them was full, those before it have the event, and the message is queued
  -- again.
  pub process-Delivers :
      (b : Bus) (m : Message) (queue : q.Queue)
      → IsValid b
      → (d : Delivery) × (b' : Bus) × (process q (valid m) b queue
          ≡ some (b', finish q (valid m) queue d))
        × IsValid b'
        × (b'.subscribers ≡ b.subscribers)
        × Delivers (subscribed b.subscribers (enclosing m.topic)) m.event b.channels b'.channels d
  process-Delivers b m queue v =
      let matched = subscribed b.subscribers (enclosing m.topic) in
      let (d, channels, h, same, all) =
        process_matched b m queue matched (subscriber_match_lem b.subscribers m.topic) (
          AllOpen-of_count matched b.channels
            (AllOpen_matched b.subscribers b.channels (enclosing m.topic) v.live)) in
      (d, record b { channels = channels }, h, with_channels-IsValid b channels v same, refl, all)
