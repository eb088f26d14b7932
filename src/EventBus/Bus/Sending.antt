-- ===== src/EventBus/Bus/Sending.antt =====
-- pkg/eventbus/eventbus.go: the loop that sends to the subscribers, and the channels as its proof
-- sees them: how often one stands in a list, whether it is open, and what it holds.
use k8s_countermeasures.Prelude.{
  nat_eq, Map, lookup, insert, lookup-insert, ◌==◌, if◌then◌else◌, ltb, length, length-append, ℕ,
  zero, suc, ◌+◌, ◌≤◌, ◌<◌, none, some, List, [], ◌∷◌, ◌++◌, Bool, true, false, not, ◌≡◌, refl, sym,
  ap, ◌∙◌, ◌⊎◌, inl, inr, arith, Bool-cases, nat_beq_iff,
}
use mathlib.Core.List.{append_assoc, append-nil}
use k8s_countermeasures.Events.{Event}
use k8s_countermeasures.EventBus.Bus.{
  Channel, consumer_buffer_size, sent, not_ready, send, Delivery, delivered, interrupted, deliver,
}

abbrev pub count : ℕ → List ℕ → ℕ
count ch [] = 0
count ch (c ∷ cs) = (if ch == c then 1 else 0) + count ch cs

pub count-append : (ch : ℕ) (xs ys : List ℕ) → count ch (xs ++ ys) ≡ count ch xs + count ch ys
count-append ch [] ys = omega arith
count-append ch (x ∷ xs) ys = ground (arith, count-append ch xs ys)

abbrev pub copies : ℕ → Event → List Event
copies zero event = []
copies (suc n) event = event ∷ copies n event

abbrev pub Channels : Type 0
Channels = Map ℕ Channel

abbrev pub is_open : ℕ → Channels → Bool
is_open ch m = elim (lookup ch m) [ none ↦ false | some c ↦ not c.closed ]

abbrev pub buffer_of : ℕ → Channels → List Event
buffer_of ch m = elim (lookup ch m) [ none ↦ [] | some c ↦ c.buffer ]

abbrev pub IsBounded : Channels → Type 0
IsBounded m = (ch : ℕ) → length (buffer_of ch m) ≤ consumer_buffer_size

abbrev pub AllOpen : List ℕ → Channels → Type 0
AllOpen [] m = Unit {0}
AllOpen (ch ∷ chs) m = (is_open ch m ≡ true) × AllOpen chs m

pub AllOpen-of_count :
    (chs : List ℕ) (m : Channels)
    → ((ch : ℕ) → 0 < count ch chs → is_open ch m ≡ true)
    → AllOpen chs m
AllOpen-of_count [] m h = tt
AllOpen-of_count (c ∷ chs) m h =
    (h c (ground (arith, nat_beq_iff c c)), AllOpen-of_count chs m (λ ch p. h ch (omega arith)))

pub AllOpen-ext :
    (chs : List ℕ) (m m' : Channels)
    → ((ch : ℕ) → is_open ch m' ≡ is_open ch m)
    → AllOpen chs m
    → AllOpen chs m'
AllOpen-ext [] m m' h a = tt
AllOpen-ext (c ∷ chs) m m' h a = (h c ∙ a.0, AllOpen-ext chs m m' h a.1)

-- What a write to buffers leaves alone: which channels are there, which are open, and the bound.
pub record SameChannels (m m' : Channels) : Type 0 where
  pub opened : (ch : ℕ) → is_open ch m' ≡ is_open ch m
  pub missing : (ch : ℕ) → lookup ch m ≡ none → lookup ch m' ≡ none
  pub bounded : IsBounded m → IsBounded m'

pub SameChannels-refl : (m : Channels) → SameChannels m m
SameChannels-refl m = record { opened = λ ch. refl; missing = λ ch h. h; bounded = λ h. h }

SameChannels-trans :
    (m m' m'' : Channels) → SameChannels m m' → SameChannels m' m'' → SameChannels m m''
SameChannels-trans m m' m'' a b = record {
  opened = λ ch. b.opened ch ∙ a.opened ch;
  missing = λ ch h. b.missing ch (a.missing ch h);
  bounded = λ h. b.bounded (a.bounded h);
}

-- A send to an open channel adds the event at the end of its buffer, or finds it full.
abbrev pub Sends : ℕ → Event → Channels → Type 0
Sends ch event m =
    ((m' : Channels) × (send ch event m ≡ sent m')
      × SameChannels m m'
      × ((j : ℕ) → buffer_of j m' ≡ buffer_of j m ++ copies (if j == ch then 1 else 0) event))
    ⊎ ((send ch event m ≡ not_ready) × (consumer_buffer_size ≤ length (buffer_of ch m)))

pushed : ℕ → Event → Channels → Channels
pushed ch event m = insert ch (record { buffer = buffer_of ch m ++ event ∷ []; closed = false }) m

lookup-pushed :
    (ch : ℕ) (event : Event) (m : Channels) (j : ℕ)
    → lookup j (pushed ch event m) ≡ (
        if ch == j
        then some (record { buffer = buffer_of ch m ++ event ∷ []; closed = false })
        else lookup j m)
unfolding pushed
lookup-pushed ch event m j = lookup-insert ch j _ m

buffer_of-pushed :
    (ch : ℕ) (event : Event) (m : Channels) (j : ℕ)
    → buffer_of j (pushed ch event m) ≡ buffer_of j m ++ copies (if j == ch then 1 else 0) event
buffer_of-pushed ch event m j = elim (Bool-cases (ch == j)) [
  | inl e ↦
      let same : ch ≡ j = (nat_beq_iff ch j).0 e in
      ground (arith, lookup-pushed ch event m j, nat_beq_iff j ch)
  | inr e ↦ ground (arith, lookup-pushed ch event m j, nat_beq_iff j ch, append-nil (buffer_of j m))
]

pushed-SameChannels :
    (ch : ℕ) (event : Event) (m : Channels)
    → is_open ch m ≡ true
    → length (buffer_of ch m) < consumer_buffer_size
    → SameChannels m (pushed ch event m)
pushed-SameChannels ch event m h room = record {
  opened = λ j. ground (arith, lookup-pushed ch event m j, nat_beq_iff ch j);
  missing = λ j e. ground (arith, lookup-pushed ch event m j, nat_beq_iff ch j);
  bounded = λ b j. ground (
    arith,
    lookup-pushed ch event m j,
    nat_beq_iff ch j,
    b j,
    length-append (buffer_of ch m) (event ∷ []),
  );
}

pub send_open : (ch : ℕ) (event : Event) (m : Channels) → is_open ch m ≡ true → Sends ch event m
send_open ch event m h = elim (Bool-cases (ltb (length (buffer_of ch m)) consumer_buffer_size)) [
  | inl room ↦ inl (
    pushed ch event m,
    unfold send pushed in ground (arith, room),
    pushed-SameChannels ch event m h (ground (arith, room)),
    buffer_of-pushed ch event m,
  )
  | inr full ↦ inr (unfold send in ground (arith, full), ground (arith, full))
]

copies-add : (a b : ℕ) (event : Event) → copies (a + b) event ≡ copies a event ++ copies b event
copies-add zero b event = ap (λ n. copies n event) (omega arith)
copies-add (suc a) b event =
    let step : suc a + b ≡ suc (a + b) = omega arith in
    ap (λ n. copies n event) step ∙ ap (λ l. event ∷ l) (copies-add a b event)

-- What the loop over the subscribers has done. Either all of them have the event, each as often as
-- it stands in the list; or the loop met one that was full, and those before it have the event.
pub data Delivers (chs : List ℕ) (event : Event) (m m' : Channels) (d : Delivery) : Type 0 where
  to_all :
      d ≡ delivered
      → ((j : ℕ) → buffer_of j m' ≡ buffer_of j m ++ copies (count j chs) event)
      → Delivers chs event m m' d
  to_some :
      (before : List ℕ) (full : ℕ) (after : List ℕ)
      → d ≡ interrupted
      → chs ≡ before ++ full ∷ after
      → consumer_buffer_size ≤ length (buffer_of full m')
      → ((j : ℕ) → buffer_of j m' ≡ buffer_of j m ++ copies (count j before) event)
      → Delivers chs event m m' d

grown :
    (event : Event) (a b c : List Event) (k n : ℕ)
    → b ≡ a ++ copies k event
    → c ≡ b ++ copies n event
    → c ≡ a ++ copies (k + n) event
grown event a b c k n h e =
    e
    ∙ ap (λ l. l ++ copies n event) h
    ∙ append_assoc a (copies k event) (copies n event)
    ∙ ap (λ l. a ++ l) (sym (copies-add k n event))

Delivers-cons :
    (ch : ℕ) (chs : List ℕ) (event : Event) (m m' m'' : Channels) (d : Delivery)
    → ((j : ℕ) → buffer_of j m' ≡ buffer_of j m ++ copies (if j == ch then 1 else 0) event)
    → Delivers chs event m' m'' d
    → Delivers (ch ∷ chs) event m m'' d
Delivers-cons ch chs event m m' m'' d h (to_all e g) =
    to_all e (λ j. grown event _ _ _ _ _ (h j) (g j))
Delivers-cons ch chs event m m' m'' d h (to_some before full after e split stuck g) =
    to_some (ch ∷ before) full after e (ap (λ l. ch ∷ l) split) stuck
      (λ j. grown event _ _ _ _ _ (h j) (g j))

-- The loop over open channels does not panic, and leaves every channel open that was.
pub deliver_open :
    (chs : List ℕ) (event : Event) (m : Channels)
    → AllOpen chs m
    → (d : Delivery) × (m' : Channels) × (deliver chs event m ≡ some (d, m'))
      × SameChannels m m'
      × Delivers chs event m m' d
unfolding deliver
deliver_open [] event m h =
    (delivered, m, refl, SameChannels-refl m, to_all refl (λ j. sym (append-nil _)))
deliver_open (ch ∷ chs) event m h = elim (send_open ch event m h.0) [
  | inl (m', e, same, grows) ↦
      let (d, m'', e', same', all) =
        deliver_open chs event m' (AllOpen-ext chs m m' same.opened h.1) in
      (
        d,
        m'',
        ground (arith, e, e'),
        SameChannels-trans m m' m'' same same',
        Delivers-cons ch chs event m m' m'' d grows all,
      )
  | inr (e, full) ↦ (
    interrupted,
    m,
    ground (arith, e),
    SameChannels-refl m,
    to_some [] ch chs refl refl full (λ j. sym (append-nil _)),
  )
]
