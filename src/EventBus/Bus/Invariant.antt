-- ===== src/EventBus/Bus/Invariant.antt =====
-- What holds of the bus between its methods, and that no method panics.
use k8s_countermeasures.Prelude.{
  Text, text_eq, nat_eq, lookup, insert, lookup-insert, DistinctKeys, insert-DistinctKeys, ◌==◌,
  text_beq_iff, if◌then◌else◌, ℕ, suc, ◌+◌, ◌≤◌, ◌<◌, none, some, List, [], ◌∷◌, ◌++◌, true, false,
  ◌≡◌, refl, arith, nat_beq_iff,
}
use k8s_countermeasures.EventBus.Matcher.{Subscribers, exact}
use k8s_countermeasures.EventBus.Bus.{Bus, new_bus, subscribe}
use k8s_countermeasures.EventBus.Bus.Sending.{count, count-append, is_open, IsBounded}

pub record IsValid (b : Bus) : Type 0 where
  -- a channel that is subscribed is open
  pub live :
      (t : Text) (ch : ℕ) → 0 < count ch (exact b.subscribers t) → is_open ch b.channels ≡ true
  -- it is subscribed once, to one topic
  pub once : (t : Text) (ch : ℕ) → count ch (exact b.subscribers t) ≤ 1
  pub apart :
      (t u : Text) (ch : ℕ)
      → 0 < count ch (exact b.subscribers t)
      → 0 < count ch (exact b.subscribers u)
      → t ≡ u
  -- no channel has been given the next number
  pub fresh : (ch : ℕ) → b.next_channel ≤ ch → lookup ch b.channels ≡ none
  pub bounded : IsBounded b.channels
  pub distinct : DistinctKeys b.subscribers

pub new_bus-IsValid : IsValid new_bus
unfolding exact lookup
new_bus-IsValid = record {
  live = λ t ch h. absurd (omega arith);
  once = λ t ch. omega arith;
  apart = λ t u ch h. absurd (omega arith);
  fresh = λ ch h. refl;
  bounded = λ ch. omega arith;
  distinct = tt;
}

pub exact-insert :
    (t : Text) (chs : List ℕ) (subs : Subscribers) (u : Text)
    → exact (insert t chs subs) u ≡ (if t == u then chs else exact subs u)
unfolding exact
exact-insert t chs subs u = ground (arith, lookup-insert t u chs subs)

-- The next number is in no list of subscribers.
next_unused : (b : Bus) (t : Text) → IsValid b → count b.next_channel (exact b.subscribers t) ≡ 0
next_unused b t v = ground (arith, v.live t b.next_channel, v.fresh b.next_channel)

module _ (b : Bus) (topic : Text) (v : IsValid b) where
  abbrev joined : Bus
  joined = (subscribe b topic).1

  pub exact-subscribe :
      (t : Text)
      → exact joined.subscribers t ≡ (
          if topic == t
          then exact b.subscribers topic ++ b.next_channel ∷ []
          else exact b.subscribers t)
  unfolding subscribe
  exact-subscribe t = exact-insert topic _ b.subscribers t

  pub count-subscribe :
      (t : Text) (ch : ℕ)
      → count ch (exact joined.subscribers t)
        ≡ count ch (exact b.subscribers t)
          + (if topic == t then (if ch == b.next_channel then 1 else 0) else 0)
  count-subscribe t ch = ground (
    arith,
    exact-subscribe t,
    text_beq_iff topic t,
    count-append ch (exact b.subscribers topic) (b.next_channel ∷ []),
  )

  pub lookup-subscribe :
      (ch : ℕ)
      → lookup ch joined.channels ≡ (
          if b.next_channel == ch
          then some (record { buffer = []; closed = false })
          else lookup ch b.channels)
  unfolding subscribe
  lookup-subscribe ch = lookup-insert b.next_channel ch _ b.channels

  next-subscribe : joined.next_channel ≡ suc b.next_channel
  unfolding subscribe
  next-subscribe = refl

  -- Subscribing makes a new channel and keeps the bus valid.
  pub subscribe-IsValid : IsValid joined
  subscribe-IsValid = record {
    live = λ t ch h. ground (
      arith,
      count-subscribe t ch,
      lookup-subscribe ch,
      v.live t ch,
      nat_beq_iff b.next_channel ch,
    );
    once = λ t ch. ground (
      arith,
      count-subscribe t ch,
      v.once t ch,
      next_unused b t v,
      nat_beq_iff ch b.next_channel,
    );
    apart = λ t u ch h k. ground (
      arith,
      count-subscribe t ch,
      count-subscribe u ch,
      v.apart t u ch,
      next_unused b t v,
      next_unused b u v,
      nat_beq_iff ch b.next_channel,
      text_beq_iff topic t,
      text_beq_iff topic u,
    );
    fresh = λ ch h.
        ground
          (arith, next-subscribe, lookup-subscribe ch, v.fresh ch, nat_beq_iff b.next_channel ch);
    bounded = λ ch. ground (arith, lookup-subscribe ch, v.bounded ch);
    distinct = unfold subscribe in insert-DistinctKeys topic _ b.subscribers v.distinct;
  }
