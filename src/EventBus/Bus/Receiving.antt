-- ===== src/EventBus/Bus/Receiving.antt =====
-- pkg/eventbus/eventbus.go: what a read of a channel does to the channels.
use k8s_countermeasures.Prelude.{
  nat_eq, nat_beq_iff, lookup, insert, lookup-insert, ◌==◌, if◌then◌else◌, ℕ, some, List, [], ◌∷◌,
  Bool, true, false, ◌≡◌, sym, subst, inl, inr, arith, Option-cases,
}
use k8s_countermeasures.Events.{Event}
use k8s_countermeasures.EventBus.Bus.{Received, event, closed, waits, receive}
use k8s_countermeasures.EventBus.Bus.Sending.{Channels, buffer_of, SameChannels, SameChannels-refl}

-- A read takes the first event off the channel's buffer and leaves the rest, or changes nothing.
pub data Receives (ch : ℕ) (m : Channels) : Received × Channels → Type 0 where
  nothing_yet : Receives ch m (waits, m)
  at_end : Receives ch m (closed, m)
  took :
      (e : Event) (m' : Channels)
      → SameChannels m m'
      → ((j : ℕ) → buffer_of j m ≡ (if j == ch then e ∷ buffer_of j m' else buffer_of j m'))
      → Receives ch m (event e, m')

module _ (ch : ℕ) (first : Event) (rest : List Event) (shut : Bool) (m : Channels)
    (e : lookup ch m ≡ some (record { buffer = first ∷ rest; closed = shut })) where
  after : Channels
  after = insert ch (record { buffer = rest; closed = shut }) m

  lookup-after :
      (j : ℕ)
      → lookup j after
        ≡ (if ch == j then some (record { buffer = rest; closed = shut }) else lookup j m)
  unfolding after
  lookup-after j = lookup-insert ch j _ m

  after-Receives : Receives ch m (event first, after)
  after-Receives =
      took first after
        (record {
          opened = λ j. ground (arith, lookup-after j, nat_beq_iff ch j);
          missing = λ j h. ground (arith, lookup-after j, nat_beq_iff ch j);
          bounded = λ b j. ground (arith, lookup-after j, nat_beq_iff ch j, b j);
        })
        (λ j. ground (arith, lookup-after j, nat_beq_iff ch j, nat_beq_iff j ch))

  read_lem : receive ch m ≡ (event first, after)
  unfolding receive after
  read_lem = ground (arith, e)

empty_lem :
    (ch : ℕ) (shut : Bool) (m : Channels)
    → lookup ch m ≡ some (record { buffer = []; closed = shut })
    → receive ch m ≡ (if shut then closed else waits, m)
unfolding receive
empty_lem ch shut m e = ground (arith, e)

empty-Receives :
    (ch : ℕ) (shut : Bool) (m : Channels) → Receives ch m (if shut then closed else waits, m)
empty-Receives ch true m = at_end
empty-Receives ch false m = nothing_yet

found-Receives :
    (ch : ℕ) (buffer : List Event) (shut : Bool) (m : Channels)
    → lookup ch m ≡ some (record { buffer = buffer; closed = shut })
    → Receives ch m (receive ch m)
found-Receives ch [] shut m e =
    subst (Receives ch m) (sym (empty_lem ch shut m e)) (empty-Receives ch shut m)
found-Receives ch (first ∷ rest) shut m e =
    subst (Receives ch m) (sym (read_lem ch first rest shut m e))
      (after-Receives ch first rest shut m e)

pub receive-Receives : (ch : ℕ) (m : Channels) → Receives ch m (receive ch m)
receive-Receives ch m = elim (Option-cases (lookup ch m)) [
  | inl e ↦
      let unread : receive ch m ≡ (waits, m) = unfold receive in ground (arith, e) in
      subst (Receives ch m) (sym unread) nothing_yet
  | inr (c, e) ↦ found-Receives ch c.buffer c.closed m e
]

SameChannels-of_Receives :
    {ch : ℕ} {m : Channels} {r : Received × Channels} → Receives ch m r → SameChannels m r.1
SameChannels-of_Receives nothing_yet = SameChannels-refl _
SameChannels-of_Receives at_end = SameChannels-refl _
SameChannels-of_Receives (took e m' same law) = same

-- Which channels there are, which are open and the bound stay.
pub receive-SameChannels : (ch : ℕ) (m : Channels) → SameChannels m (receive ch m).1
receive-SameChannels ch m = SameChannels-of_Receives (receive-Receives ch m)
