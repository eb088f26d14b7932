-- ===== src/EventBus/Bus/Leaving.antt =====
-- Unsubscribing: the channel is closed, once, and is nobody's any more.
use k8s_countermeasures.Prelude.{
  Text, text_eq, nat_eq, lookup, insert, lookup-insert, insert-DistinctKeys, ◌==◌, text_beq_iff,
  if◌then◌else◌, ℕ, ◌+◌, ◌<◌, none, some, List, [], ◌∷◌, true, false, ◌≡◌, ◌≤◌, refl, ap, sym, ◌∙◌,
  some_inj, subst, inl, inr, arith, Option-cases, Bool-cases, nat_beq_iff,
}
use k8s_countermeasures.EventBus.Matcher.{exact}
use k8s_countermeasures.EventBus.Bus.{Bus, remove_first, unsubscribe}
use k8s_countermeasures.EventBus.Bus.Sending.{count, Channels, is_open, buffer_of}
use k8s_countermeasures.EventBus.Bus.Invariant.{IsValid, exact-insert}

-- Taking the first occurrence away takes one away.
remove_first-count :
    (ch : ℕ) (cs rest : List ℕ)
    → remove_first ch cs ≡ some rest
    → (j : ℕ) → count j rest + (if j == ch then 1 else 0) ≡ count j cs
unfolding remove_first
remove_first-count ch [] rest h j = absurd (ground arith)
remove_first-count ch (c ∷ cs) rest h j = elim (Bool-cases (ch == c)) [
  | inl e ↦ ground (arith, e, nat_beq_iff ch c, nat_beq_iff j c, nat_beq_iff j ch)
  | inr e ↦ elim (Option-cases (remove_first ch cs)) [
    | inl g ↦ absurd (ground (arith, e, g))
    | inr (more, g) ↦
        let ih = remove_first-count ch cs more g j in
        let found : c ∷ more ≡ rest = ground (arith, e, g) in
        subst (λ l. count j l + (if j == ch then 1 else 0) ≡ count j (c ∷ cs)) found (omega arith)
  ]
]

remove_first-none : (ch : ℕ) (cs : List ℕ) → remove_first ch cs ≡ none → count ch cs ≡ 0
unfolding remove_first
remove_first-none ch [] h = refl
remove_first-none ch (c ∷ cs) h = ground (arith, remove_first-none ch cs)

module _ (b : Bus) (topic : Text) (ch : ℕ) (rest : List ℕ) (v : IsValid b)
    (left : remove_first ch (exact b.subscribers topic) ≡ some rest) where
  abbrev closed_channels : Channels
  closed_channels =
      insert ch (record { buffer = buffer_of ch b.channels; closed = true }) b.channels

  abbrev remaining : Bus
  remaining = record {
    subscribers = insert topic rest b.subscribers;
    channels = closed_channels;
    next_channel = b.next_channel;
  }

  was_open : is_open ch b.channels ≡ true
  was_open = ground (
    arith,
    v.live topic ch,
    remove_first-count ch (exact b.subscribers topic) rest left ch,
    nat_beq_iff ch ch,
  )

  unsubscribe_lem : unsubscribe b topic ch ≡ some remaining
  unfolding unsubscribe
  unsubscribe_lem = ground (arith, left, was_open)

  count-remaining :
      (t : Text) (j : ℕ)
      → count j (exact remaining.subscribers t)
          + (if topic == t then (if j == ch then 1 else 0) else 0)
        ≡ count j (exact b.subscribers t)
  count-remaining t j = ground (
    arith,
    exact-insert topic rest b.subscribers t,
    text_beq_iff topic t,
    remove_first-count ch (exact b.subscribers topic) rest left j,
  )

  lookup-closed :
      (j : ℕ)
      → lookup j closed_channels ≡ (
          if ch == j
          then some (record { buffer = buffer_of ch b.channels; closed = true })
          else lookup j b.channels)
  lookup-closed j = lookup-insert ch j _ b.channels

  remaining-IsValid : IsValid remaining
  remaining-IsValid = record {
    live = λ t j h. ground (
      arith,
      count-remaining t j,
      lookup-closed j,
      v.live t j,
      v.once t j,
      v.apart t topic j,
      nat_beq_iff ch j,
      nat_beq_iff j ch,
      nat_beq_iff ch ch,
      text_beq_iff topic t,
      remove_first-count ch (exact b.subscribers topic) rest left ch,
    );
    once = λ t j. ground (arith, count-remaining t j, v.once t j);
    apart = λ t u j h k. ground (arith, count-remaining t j, count-remaining u j, v.apart t u j);
    fresh = λ j h. ground (arith, lookup-closed j, v.fresh j, was_open, nat_beq_iff ch j);
    bounded = λ j. ground (arith, lookup-closed j, v.bounded j, v.bounded ch);
    distinct = insert-DistinctKeys topic rest b.subscribers v.distinct;
  }

  -- Nothing is sent to the channel any more.
  gone : (t : Text) → count ch (exact remaining.subscribers t) ≡ 0
  gone t = ground (arith, remaining-IsValid.live t ch, lookup-closed ch, nat_beq_iff ch ch)

pub unsubscribe-cases :
    (b : Bus) (topic : Text) (ch : ℕ)
    → IsValid b
    → (b' : Bus) × (unsubscribe b topic ch ≡ some b')
      × IsValid b'
      × (0 < count ch (exact b.subscribers topic)
          → (is_open ch b'.channels ≡ false) × ((t : Text) → count ch (exact b'.subscribers t) ≡ 0))
unsubscribe-cases b topic ch v = elim (Option-cases (remove_first ch (exact b.subscribers topic))) [
  | inl e ↦ (
    b,
    unfold unsubscribe in ground (arith, e),
    v,
    λ h. absurd (omega (arith, remove_first-none ch (exact b.subscribers topic) e)),
  )
  | inr (rest, e) ↦ (
    remaining b topic ch rest v e,
    unsubscribe_lem b topic ch rest v e,
    remaining-IsValid b topic ch rest v e,
    λ h. (
      ground (arith, lookup-closed b topic ch rest v e ch, nat_beq_iff ch ch),
      gone b topic ch rest v e,
    ),
  )
]

-- A consumer that leaves can still read what its buffer holds, and so can the others.
pub buffer_of-unsubscribe :
    (b b' : Bus) (topic : Text) (ch : ℕ)
    → IsValid b
    → unsubscribe b topic ch ≡ some b'
    → (j : ℕ) → buffer_of j b'.channels ≡ buffer_of j b.channels
buffer_of-unsubscribe b b' topic ch v h j =
    elim (Option-cases (remove_first ch (exact b.subscribers topic))) [
      | inl e ↦
          let unchanged : unsubscribe b topic ch ≡ some b =
            unfold unsubscribe in ground (arith, e) in
          let same : b ≡ b' = some_inj (sym unchanged ∙ h) in
          ap (λ x. buffer_of j x.channels) (sym same)
      | inr (rest, e) ↦
          let same : remaining b topic ch rest v e ≡ b' =
            some_inj (sym (unsubscribe_lem b topic ch rest v e) ∙ h) in
          subst (λ x. buffer_of j x.channels ≡ buffer_of j b.channels) same
            (ground (arith, lookup-closed b topic ch rest v e j, nat_beq_iff ch j))
    ]

-- Unsubscribing adds no channel to any topic.
pub unsubscribe-count :
    (b b' : Bus) (topic : Text) (ch : ℕ)
    → IsValid b
    → unsubscribe b topic ch ≡ some b'
    → (t : Text) (j : ℕ) → count j (exact b'.subscribers t) ≤ count j (exact b.subscribers t)
unsubscribe-count b b' topic ch v h t j =
    elim (Option-cases (remove_first ch (exact b.subscribers topic))) [
      | inl e ↦
          let unchanged : unsubscribe b topic ch ≡ some b =
            unfold unsubscribe in ground (arith, e) in
          let same : b ≡ b' = some_inj (sym unchanged ∙ h) in
          subst (λ x. count j (exact x.subscribers t) ≤ count j (exact b.subscribers t)) same
            (omega arith)
      | inr (rest, e) ↦
          let same : remaining b topic ch rest v e ≡ b' =
            some_inj (sym (unsubscribe_lem b topic ch rest v e) ∙ h) in
          subst (λ x. count j (exact x.subscribers t) ≤ count j (exact b.subscribers t)) same
            (omega (arith, count-remaining b topic ch rest v e t j))
    ]

-- Unsubscribing a consumer of a valid bus that its topic has never panics and leaves the bus valid;
-- afterwards its channel is closed and is a subscriber of no topic.
pub unsubscribe_closes :
    (b : Bus) (topic : Text) (ch : ℕ)
    → IsValid b
    → 0 < count ch (exact b.subscribers topic)
    → (b' : Bus) × (unsubscribe b topic ch ≡ some b')
      × IsValid b'
      × (is_open ch b'.channels ≡ false)
      × ((t : Text) → count ch (exact b'.subscribers t) ≡ 0)
unsubscribe_closes b topic ch v h =
    let (b', e, v', all) = unsubscribe-cases b topic ch v in (b', e, v', (all h).0, (all h).1)
