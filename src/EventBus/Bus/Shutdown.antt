-- ===== src/EventBus/Bus/Shutdown.antt =====
-- pkg/eventbus/eventbus.go: the end of `Start`, which closes the channels of all subscribers.
use k8s_countermeasures.Prelude.{
  Text, text_eq, nat_eq, lookup, insert, lookup-insert, DistinctKeys, ◌==◌, text_beq_iff,
  if◌then◌else◌, ltb, length, ℕ, ◌+◌, ◌≤◌, ◌<◌, none, some, List, [], ◌∷◌, true, false, ◌≡◌, refl,
  sym, ◌∙◌, subst, inl, inr, arith, Bool-cases, nat_beq_iff,
}
use k8s_countermeasures.EventBus.Matcher.{Subscribers, exact}
use k8s_countermeasures.EventBus.Bus.{Bus, close, close_all, close_topics, stop}
use k8s_countermeasures.EventBus.Bus.Sending.{count, Channels, is_open, buffer_of}
use k8s_countermeasures.EventBus.Bus.Invariant.{IsValid}

-- How often a channel is subscribed, over all topics.
abbrev pub total : ℕ → Subscribers → ℕ
total ch [] = 0
total ch ((t, chs) ∷ subs) = count ch chs + total ch subs

exact_missing : (subs : Subscribers) (t : Text) → lookup t subs ≡ none → exact subs t ≡ []
unfolding exact
exact_missing subs t h = ground (arith, h)

exact-cons :
    (t u : Text) (chs : List ℕ) (subs : Subscribers)
    → exact ((t, chs) ∷ subs) u ≡ (if t == u then chs else exact subs u)
unfolding exact lookup
exact-cons t u chs subs = ground arith

module _ (ch : ℕ) where
  total_none :
      (subs : Subscribers)
      → DistinctKeys subs
      → ((t : Text) → count ch (exact subs t) ≡ 0)
      → total ch subs ≡ 0
  total_none [] d h = refl
  total_none ((t, chs) ∷ subs) d h = ground (
    arith,
    h t,
    exact-cons t t chs subs,
    text_beq_iff t t,
    total_none subs d.1 (λ u.
        ground (arith, h u, exact-cons t u chs subs, text_beq_iff t u, exact_missing subs t d.0)),
  )

  -- A channel that is subscribed once, to one topic, is subscribed once over all topics.
  total-le :
      (subs : Subscribers)
      → DistinctKeys subs
      → ((t : Text) → count ch (exact subs t) ≤ 1)
      → ((t u : Text) → 0 < count ch (exact subs t) → 0 < count ch (exact subs u) → t ≡ u)
      → total ch subs ≤ 1
  total-le [] d once apart = omega arith
  total-le ((t, chs) ∷ subs) d once apart = elim (Bool-cases (ltb 0 (count ch chs))) [
    | inr never ↦ ground (
      arith,
      total-le subs d.1
          (λ u.
            ground
              (arith, once u, exact-cons t u chs subs, text_beq_iff t u, exact_missing subs t d.0))
          (λ u v h k. ground (
            arith,
            apart u v,
            exact-cons t u chs subs,
            exact-cons t v chs subs,
            text_beq_iff t u,
            text_beq_iff t v,
            exact_missing subs t d.0,
          )),
    )
    | inl here ↦ ground (
      arith,
      once t,
      exact-cons t t chs subs,
      text_beq_iff t t,
      total_none subs d.1 (λ u. ground (
        arith,
        apart t u,
        exact-cons t t chs subs,
        exact-cons t u chs subs,
        text_beq_iff t t,
        text_beq_iff t u,
        exact_missing subs t d.0,
      )),
    )
  ]

-- What is left when the channels of a kind are closed: which are open, and all that they hold.
pub record Closes (P : ℕ → ℕ) (m m' : Channels) : Type 0 where
  pub opened : (ch : ℕ) → is_open ch m' ≡ (if P ch == 0 then is_open ch m else false)
  pub held : (ch : ℕ) → buffer_of ch m' ≡ buffer_of ch m
  pub missing : (ch : ℕ) → lookup ch m ≡ none → lookup ch m' ≡ none

close_open :
    (ch : ℕ) (m : Channels)
    → is_open ch m ≡ true
    → (m' : Channels) × (close ch m ≡ some m') × Closes (λ j. if j == ch then 1 else 0) m m'
unfolding close
close_open ch m h =
    let m' : Channels = insert ch (record { buffer = buffer_of ch m; closed = true }) m in
    let found =
      λ (j : ℕ). lookup-insert ch j (record { buffer = buffer_of ch m; closed = true }) m in
    (
      m',
      ground (arith, h),
      record {
        opened = λ j. ground (arith, found j, nat_beq_iff ch j, nat_beq_iff j ch);
        held = λ j. ground (arith, found j, nat_beq_iff ch j);
        missing = λ j e. ground (arith, found j, nat_beq_iff ch j);
      },
    )

close_all_open :
    (chs : List ℕ) (m : Channels)
    → ((ch : ℕ) → count ch chs ≤ 1)
    → ((ch : ℕ) → 0 < count ch chs → is_open ch m ≡ true)
    → (m' : Channels) × (close_all chs m ≡ some m') × Closes (λ ch. count ch chs) m m'
unfolding close_all
close_all_open [] m once ready =
    (m, refl, record { opened = λ ch. refl; held = λ ch. refl; missing = λ ch h. h })
close_all_open (c ∷ chs) m once ready =
    let (m1, e1, one) = close_open c m (ready c (ground (arith, nat_beq_iff c c))) in
    let (m2, e2, more) =
      close_all_open chs m1 (λ j. omega (arith, once j))
        (λ j p. ground (arith, one.opened j, ready j, once j, nat_beq_iff j c)) in
    (
      m2,
      ground (arith, e1, e2),
      record {
        opened = λ j. ground (arith, more.opened j, one.opened j);
        held = λ j. more.held j ∙ one.held j;
        missing = λ j h. more.missing j (one.missing j h);
      },
    )

close_topics_open :
    (subs : Subscribers) (m : Channels)
    → ((ch : ℕ) → total ch subs ≤ 1)
    → ((ch : ℕ) → 0 < total ch subs → is_open ch m ≡ true)
    → (m' : Channels) × (close_topics subs m ≡ some m') × Closes (λ ch. total ch subs) m m'
unfolding close_topics
close_topics_open [] m once ready =
    (m, refl, record { opened = λ ch. refl; held = λ ch. refl; missing = λ ch h. h })
close_topics_open ((t, chs) ∷ subs) m once ready =
    let (m1, e1, one) =
      close_all_open chs m (λ j. omega (arith, once j)) (λ j p. ready j (omega arith)) in
    let (m2, e2, more) =
      close_topics_open subs m1 (λ j. omega (arith, once j))
        (λ j p. ground (arith, one.opened j, ready j, once j)) in
    (
      m2,
      ground (arith, e1, e2),
      record {
        opened = λ j. ground (arith, more.opened j, one.opened j);
        held = λ j. more.held j ∙ one.held j;
        missing = λ j h. more.missing j (one.missing j h);
      },
    )

abbrev stopped : Bus → Channels → Bus
stopped b m = record { subscribers = []; channels = m; next_channel = b.next_channel }

stopped-IsValid :
    (b : Bus) (m : Channels)
    → IsValid b
    → Closes (λ ch. total ch b.subscribers) b.channels m
    → IsValid (stopped b m)
unfolding exact lookup
stopped-IsValid b m v c = record {
  live = λ t ch h. absurd (omega arith);
  once = λ t ch. omega arith;
  apart = λ t u ch h k. absurd (omega arith);
  fresh = λ ch h. c.missing ch (v.fresh ch h);
  bounded = λ ch. subst (λ l. length l ≤ 10) (sym (c.held ch)) (v.bounded ch);
  distinct = tt;
}

subscribed_open :
    (b : Bus) (ch : ℕ) → IsValid b → 0 < total ch b.subscribers → is_open ch b.channels ≡ true
subscribed_open b ch v p = elim (Bool-cases (is_open ch b.channels)) [
  | inl e ↦ e
  | inr e ↦
      absurd (
        omega (arith, total_none ch b.subscribers v.distinct (λ t. ground (arith, v.live t ch, e))))
]

-- The end of the bus, if it is valid, never panics: it closes every channel that is subscribed, each
-- once, and no other, keeps what the buffers hold for their consumers to read, and leaves a valid bus
-- with no subscribers.
pub stop_closes :
    (b : Bus)
    → IsValid b
    → (b' : Bus) × (stop b ≡ some b')
      × IsValid b'
      × (b'.subscribers ≡ [])
      × ((ch : ℕ)
          → is_open ch b'.channels
            ≡ (if total ch b.subscribers == 0 then is_open ch b.channels else false))
      × ((ch : ℕ) → buffer_of ch b'.channels ≡ buffer_of ch b.channels)
unfolding stop
stop_closes b v =
    let (m, e, c) =
      close_topics_open b.subscribers b.channels
        (λ ch. total-le ch b.subscribers v.distinct (λ t. v.once t ch) (λ t u. v.apart t u ch))
        (λ ch p. subscribed_open b ch v p) in
    (stopped b m, ground (arith, e), stopped-IsValid b m v c, refl, c.opened, c.held)
