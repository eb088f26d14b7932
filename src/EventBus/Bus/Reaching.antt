-- ===== src/EventBus/Bus/Reaching.antt =====
-- pkg/eventbus/eventbus.go and pkg/events/events.go: a source's message under its fully qualified topic,
-- and a channel that waits for the short topic.
use k8s_countermeasures.Prelude.{
  Text, text_eq, nat_eq, nat_beq_iff, lookup, lookup-insert, text_beq_iff, contains, length,
  length-append, ℕ, ◌≤◌, ◌<◌, some, List, [], ◌∷◌, ◌++◌, false, ◌≡◌, ◌≢◌, sym, ap, ◌∙◌, subst, ◌⊎◌,
  inl, inr, arith, Option-cases,
}
use k8s_countermeasures.Manager.{NamespacedName, namespaced_name_eq}
use k8s_countermeasures.Events.{Event, create_fully_qualified_topic_name}
use k8s_countermeasures.EventBus.Matcher.{exact, colon}
use k8s_countermeasures.EventBus.Matcher.Topics.{enclosing, subscribed, enclosing-fully_qualified}
use k8s_countermeasures.EventBus.Bus.{
  Bus, Message, valid, WorkQueue, Delivery, delivered, interrupted, consumer_buffer_size, subscribe,
  process, finish, receive,
}
use k8s_countermeasures.EventBus.Bus
use k8s_countermeasures.EventBus.Bus.Sending.{
  count, count-append, copies, Channels, buffer_of, Delivers, to_all, to_some,
}
use k8s_countermeasures.EventBus.Bus.Invariant.{IsValid, count-subscribe}
use k8s_countermeasures.EventBus.Bus.Dispatch.{process-Delivers}

longer : (t w : Text) → t ≢ t ++ colon ∷ w
longer t w e = absurd (omega (arith, ap (λ s. length s) e, length-append t (colon ∷ w)))

longer_full :
    (topic : Text) (source : NamespacedName)
    → topic ≢ topic ++ colon ∷ source.namespace ++ colon ∷ source.name
longer_full topic source e = absurd (
    omega (
      arith,
      ap (λ s. length s) e,
      length-append (topic ++ colon ∷ source.namespace) (colon ∷ source.name),
      length-append topic (colon ∷ source.namespace),
    ))

not_elsewhere :
    (b : Bus) (t u : Text) (ch : ℕ)
    → IsValid b
    → 0 < count ch (exact b.subscribers t)
    → t ≢ u
    → count ch (exact b.subscribers u) ≡ 0
not_elsewhere b t u ch v mine ne = ground (arith, v.apart t u ch)

-- A channel of the short topic is sent to once, whatever source the alert is of.
count-enclosing :
    (b : Bus) (topic : Text) (source : NamespacedName) (ch : ℕ)
    → IsValid b
    → contains colon topic ≡ false
    → contains colon source.namespace ≡ false
    → contains colon source.name ≡ false
    → source.name ≢ []
    → 0 < count ch (exact b.subscribers topic)
    → count ch
        (subscribed b.subscribers (enclosing (create_fully_qualified_topic_name topic source)))
      ≡ 1
count-enclosing b topic source ch v ht hs hn ne mine =
    let inner = topic ++ colon ∷ source.namespace in
    let full = topic ++ colon ∷ source.namespace ++ colon ∷ source.name in
    let subs = b.subscribers in
    ap (λ ts. count ch (subscribed subs ts)) (enclosing-fully_qualified topic source ht hs hn ne)
    ∙ ground (
      arith,
      mine,
      v.once topic ch,
      not_elsewhere b topic inner ch v mine (longer topic source.namespace),
      not_elsewhere b topic full ch v mine (longer_full topic source),
      count-append ch (exact subs full) (exact subs inner ++ (exact subs topic ++ [])),
      count-append ch (exact subs inner) (exact subs topic ++ []),
      count-append ch (exact subs topic) [],
    )

-- Whether a message got to a channel that it is to be sent to once.
abbrev pub Reaches : ℕ → List ℕ → Event → Channels → Channels → Delivery → Type 0
Reaches ch chs event before after d =
    ((d ≡ delivered) × (buffer_of ch after ≡ buffer_of ch before ++ event ∷ []))
    ⊎ ((d ≡ interrupted)
        × ((full : ℕ) × (0 < count full chs)
            × (consumer_buffer_size ≤ length (buffer_of full after))))

Delivers-Reaches :
    (ch : ℕ) (chs : List ℕ) (event : Event) (m m' : Channels) (d : Delivery)
    → count ch chs ≡ 1
    → Delivers chs event m m' d
    → Reaches ch chs event m m' d
Delivers-Reaches ch chs event m m' d once (to_all e grows) =
    inl (e, grows ch ∙ ap (λ n. buffer_of ch m ++ copies n event) once)
Delivers-Reaches ch chs event m m' d once (to_some before full after e split stuck grows) =
    let met : 0 < count full (before ++ full ∷ after) =
      ground (arith, count-append full before (full ∷ after), nat_beq_iff full full) in
    inr (e, (full, subst (λ l. 0 < count full l) (sym split) met, stuck))

pub receive-one :
    (ch : ℕ) (m : Channels) (event : Event)
    → buffer_of ch m ≡ event ∷ []
    → (receive ch m).0 ≡ Bus.event event
unfolding receive
receive-one ch m event h = elim (Option-cases (lookup ch m)) [
  | inl e ↦ absurd (ground (arith, e, h))
  | inr (c, e) ↦ ground (arith, e, h)
]

-- The countermeasure's channel is new: on the bus with it, it holds nothing and is of the topic.
pub new_channel :
    (b : Bus) (topic : Text)
    → IsValid b
    → (buffer_of (subscribe b topic).0 (subscribe b topic).1.channels ≡ [])
      × (0 < count (subscribe b topic).0 (exact (subscribe b topic).1.subscribers topic))
new_channel b topic v = (
  unfold subscribe in
      ground (
        arith,
        lookup-insert b.next_channel b.next_channel (record { buffer = []; closed = false })
            b.channels,
        nat_beq_iff b.next_channel b.next_channel,
      ),
  unfold subscribe in
      ground (
        arith,
        count-subscribe b topic v topic b.next_channel,
        text_beq_iff topic topic,
        nat_beq_iff b.next_channel b.next_channel,
      ),
)

-- What `poll` publishes for an alert of the source.
abbrev pub message_of : Event → NamespacedName → Message
message_of event source = record {
  event = event;
  topic = create_fully_qualified_topic_name event.name source;
}

module _ (q : WorkQueue) where
  -- The message of an alert on a valid bus, and a channel that waits for the alert.
  pub message-Reaches :
      (b : Bus) (event : Event) (source : NamespacedName) (queue : q.Queue) (ch : ℕ)
      → IsValid b
      → contains colon event.name ≡ false
      → contains colon source.namespace ≡ false
      → contains colon source.name ≡ false
      → source.name ≢ []
      → 0 < count ch (exact b.subscribers event.name)
      → let message = message_of event source in
        (d : Delivery) × (b' : Bus) × (process q (valid message) b queue
          ≡ some (b', finish q (valid message) queue d))
        × IsValid b'
        × Reaches ch
            (subscribed b.subscribers (enclosing message.topic))
            event
            b.channels
            b'.channels
            d
  message-Reaches b event source queue ch v ht hs hn ne mine =
      let (d, b', e, v', _, all) = process-Delivers q b (message_of event source) queue v in
      let once = count-enclosing b event.name source ch v ht hs hn ne mine in
      (d, b', e, v', Delivers-Reaches ch _ event _ _ d once all)
