-- ===== src/EventBus/Consumers/Leaving.antt =====
-- pkg/eventbus/consumer.go: unsubscribing consumers, alone and in sets.
use k8s_countermeasures.Prelude.{
  Text, nat_eq, ℕ, ◌≤◌, Option, some, List, [], ◌∷◌, ◌++◌, ◌≡◌, refl, arith, inl, inr, Bool-cases,
  ltb,
}
use k8s_countermeasures.EventBus.Matcher.{exact}
use k8s_countermeasures.EventBus.Bus.{Bus, unsubscribe}
use k8s_countermeasures.EventBus.Bus.Sending.{count}
use k8s_countermeasures.EventBus.Bus.Invariant.{IsValid}
use k8s_countermeasures.EventBus.Bus.Leaving.{unsubscribe-cases, unsubscribe-count}
use k8s_countermeasures.EventBus.Consumers.{
  EventConsumer, Consumer, event_consumer, event_consumer_set, Consumers, nil, cons, un_subscribe,
  un_subscribe_all,
}

-- The consumers of the bus that a consumer stands for.
unfoldable mutual
  pub single : Consumer → List EventConsumer
  single (event_consumer c) = c ∷ []
  single (event_consumer_set cs merged_ch) = singles cs

  pub singles : Consumers → List EventConsumer
  singles nil = []
  singles (cons c cs) = single c ++ singles cs

-- No consumer in the list has a channel that is still subscribed to its topic.
abbrev pub AllGone : List EventConsumer → Bus → Type 0
AllGone [] b = Unit {0}
AllGone (c ∷ cs) b = (count c.event_channel (exact b.subscribers c.topic) ≡ 0) × AllGone cs b

-- What leaving does to a valid bus.
abbrev pub Leaves : List EventConsumer → Bus → Option Bus → Type 0
Leaves cs b o =
    (b' : Bus) × (o ≡ some b')
    × IsValid b'
    × AllGone cs b'
    × ((t : Text) (ch : ℕ) → count ch (exact b'.subscribers t) ≤ count ch (exact b.subscribers t))

AllGone-le :
    (cs : List EventConsumer) (b b' : Bus)
    → ((t : Text) (ch : ℕ) → count ch (exact b'.subscribers t) ≤ count ch (exact b.subscribers t))
    → AllGone cs b
    → AllGone cs b'
AllGone-le [] b b' less h = tt
AllGone-le (c ∷ cs) b b' less (gone, h) =
    (omega (arith, less c.topic c.event_channel, gone), AllGone-le cs b b' less h)

AllGone-append :
    (cs ds : List EventConsumer) (b : Bus) → AllGone cs b → AllGone ds b → AllGone (cs ++ ds) b
AllGone-append [] ds b h k = k
AllGone-append (c ∷ cs) ds b (gone, h) k = (gone, AllGone-append cs ds b h k)

unsubscribe-Leaves :
    (c : EventConsumer) (b : Bus)
    → IsValid b
    → Leaves (c ∷ []) b (unsubscribe b c.topic c.event_channel)
unsubscribe-Leaves c b v =
    let (b', e, v', all) = unsubscribe-cases b c.topic c.event_channel v in
    let less = unsubscribe-count b b' c.topic c.event_channel v e in
    let mine = less c.topic c.event_channel in
    let n = count c.event_channel (exact b.subscribers c.topic) in
    (
      b',
      e,
      v',
      (
        elim (Bool-cases (ltb 0 n)) [
          | inl h ↦ (all (ground (arith, h))).1 c.topic
          | inr h ↦ ground (arith, h, mine)
        ],
        tt,
      ),
      less,
    )

mutual
  unfolding single un_subscribe

  single-Leaves : (c : Consumer) (b : Bus) → IsValid b → Leaves (single c) b (un_subscribe c b)
  single-Leaves (event_consumer c) b v = unsubscribe-Leaves c b v
  single-Leaves (event_consumer_set cs merged_ch) b v = singles-Leaves cs b v

  singles-Leaves :
      (cs : Consumers) (b : Bus) → IsValid b → Leaves (singles cs) b (un_subscribe_all cs b)
  singles-Leaves nil b v = (b, refl, v, tt, λ t ch. omega arith)
  singles-Leaves (cons c cs) b v =
      let (b', e, v', gone, less) = single-Leaves c b v in
      let (b'', e', v'', gone', less') = singles-Leaves cs b' v' in
      (
        b'',
        ground (arith, e, e'),
        v'',
        AllGone-append (single c) (singles cs) b'' (AllGone-le (single c) b' b'' less' gone) gone',
        λ t ch. omega (arith, less t ch, less' t ch),
      )

-- On a valid bus, a consumer that unsubscribes, be it alone or a set of consumers and of sets, never
-- panics and leaves the bus valid: none of the channels it stands for is subscribed to its topic any
-- more, and no topic has a channel more often than before.
pub un_subscribe-Leaves :
    (c : Consumer) (b : Bus) → IsValid b → Leaves (single c) b (un_subscribe c b)
un_subscribe-Leaves c b v = single-Leaves c b v
