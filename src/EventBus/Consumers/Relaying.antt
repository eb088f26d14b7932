-- ===== src/EventBus/Consumers/Relaying.antt =====
-- pkg/eventbus/consumer.go: what `MergeConsumers` sends on, against what its consumers' channels held.
use mathlib.Core.List.{Memᴰ, append_assoc, append-nil}
use k8s_countermeasures.Prelude.{
  nat_eq, nat_beq_iff, lookup, lookup-insert, Option-cases, Bool-cases, inl, inr, true, false, ◌∙◌,
  ◌==◌, if◌then◌else◌, ℕ, Option, none, some, List, [], ◌∷◌, ◌++◌, ◌≡◌, refl, sym, ap, arith, subst,
}
use k8s_countermeasures.Events.{Event}
use k8s_countermeasures.EventBus.Bus.{send, sent, close}
use k8s_countermeasures.EventBus.Bus.Sending.{Channels, buffer_of, is_open, send_open}
use k8s_countermeasures.EventBus.Consumers.Merging.{Merges, waited, took, ended, merge-Merges}
use k8s_countermeasures.EventBus.Consumers.{
  empty_event, merge, Merged, after_merge, relay, Relay, RelayStep, turns, arrives, closes,
  RelaySteps, here, next,
}

-- The events that were taken off a channel, in order; an entry of the log names the channel.
abbrev pub taken_off : ℕ → List (ℕ × Event) → List Event
taken_off ch [] = []
taken_off ch ((c, e) ∷ log) = if ch == c then e ∷ taken_off ch log else taken_off ch log

abbrev pub events_of : List (ℕ × Event) → List Event
events_of [] = []
events_of ((c, e) ∷ log) = e ∷ events_of log

-- Every entry of the log is of one of the given channels.
abbrev pub AllTheirs : List (Option ℕ) → List (ℕ × Event) → Type 0
AllTheirs chs [] = Unit {0}
AllTheirs chs ((c, e) ∷ log) = Memᴰ (some c) chs × AllTheirs chs log

-- The events that arrived along the steps, each with its channel.
abbrev pub arrived_by : {chs : List (Option ℕ)} {s t : Relay} → RelayStep chs s t → List (ℕ × Event)
arrived_by (arrives ch e m h) = (ch, e) ∷ []
arrived_by _ = []

abbrev pub arrived_along :
    {chs : List (Option ℕ)} {s t : Relay} → RelaySteps chs s t → List (ℕ × Event)
arrived_along here = []
arrived_along (next steps step) = arrived_along steps ++ arrived_by step

abbrev pub begin : Channels → Relay
begin m = record { channels = m; relayed = []; running = true }

-- The loop has sent on the events of the log, and the empty event if it has ended; they were taken off
-- the given channels; and of what a channel held and what arrived there, they are the first, and its
-- buffer has the others.
pub record Relays (chs : List (Option ℕ)) (m : Channels) (arrived : List (ℕ × Event)) (r : Relay)
    : Type 0 where
  pub log : List (ℕ × Event)
  pub theirs : AllTheirs chs log
  pub sent_on : r.relayed ≡ events_of log ++ (if r.running then [] else empty_event ∷ [])
  pub kept :
      (ch : ℕ)
      → buffer_of ch m ++ taken_off ch arrived ≡ taken_off ch log ++ buffer_of ch r.channels

pub taken_off-append :
    (ch : ℕ) (l k : List (ℕ × Event)) → taken_off ch (l ++ k) ≡ taken_off ch l ++ taken_off ch k
taken_off-append ch [] k = refl
taken_off-append ch ((c, e) ∷ l) k = ground (arith, taken_off-append ch l k)

events_of-append : (l k : List (ℕ × Event)) → events_of (l ++ k) ≡ events_of l ++ events_of k
events_of-append [] k = refl
events_of-append ((c, e) ∷ l) k = ap (λ t. e ∷ t) (events_of-append l k)

AllTheirs-append :
    (chs : List (Option ℕ)) (l : List (ℕ × Event)) (c : ℕ) (e : Event)
    → AllTheirs chs l
    → Memᴰ (some c) chs
    → AllTheirs chs (l ++ (c, e) ∷ [])
AllTheirs-append chs [] c e h m = (m, tt)
AllTheirs-append chs ((d, f) ∷ l) c e h m = (h.0, AllTheirs-append chs l c e h.1 m)

send-is_open : (ch : ℕ) (e : Event) (m m' : Channels) → send ch e m ≡ sent m' → is_open ch m ≡ true
unfolding send
send-is_open ch e m m' h = ground arith

pub grown :
    (ch : ℕ) (e : Event) (m m' : Channels)
    → send ch e m ≡ sent m'
    → (j : ℕ) → buffer_of j m' ≡ buffer_of j m ++ taken_off j ((ch, e) ∷ [])
grown ch e m m' h j = elim (send_open ch e m (send-is_open ch e m m' h)) [
  | inl (n, f, _, grows) ↦ ground (arith, h, f, grows j)
  | inr (f, _) ↦ absurd (ground (arith, h, f))
]

pub closed_same :
    (ch : ℕ) (m m' : Channels) → close ch m ≡ some m' → (j : ℕ) → buffer_of j m' ≡ buffer_of j m
unfolding close
closed_same ch m m' h j = elim (Option-cases (lookup ch m)) [
  | inl e ↦ absurd (ground (arith, e, h))
  | inr (c, e) ↦ ground (
    arith,
    e,
    h,
    lookup-insert ch j (record { buffer = c.buffer; closed = true }) m,
    nat_beq_iff ch j,
  )
]

split_first :
    (j ch : ℕ) (e : Event) (m : Channels)
    → (if j == ch then e ∷ buffer_of j m else buffer_of j m)
      ≡ taken_off j ((ch, e) ∷ []) ++ buffer_of j m
split_first j ch e m = ground arith

relay_up :
    (chs : List (Option ℕ)) (chosen : ℕ) (r : Relay)
    → r.running ≡ true
    → after_merge (merge none chs chosen r.channels).0 (merge none chs chosen r.channels).1 r
      ≡ relay chs chosen r
unfolding relay
relay_up chs chosen r up = ground (arith, up)

pub relay_down :
    (chs : List (Option ℕ)) (chosen : ℕ) (r : Relay) → r.running ≡ false → r ≡ relay chs chosen r
unfolding relay
relay_down chs chosen r down = ground (arith, down)

module _ (chs : List (Option ℕ)) (m : Channels) (arrived : List (ℕ × Event)) (r : Relay)
    (k : Relays chs m arrived r) where
  arrives-Relays :
      (ch : ℕ) (e : Event) (m' : Channels)
      → send ch e r.channels ≡ sent m'
      → Relays chs m (arrived ++ (ch, e) ∷ []) (record r { channels = m' })
  arrives-Relays ch e m' h = record {
    log = k.log;
    theirs = k.theirs;
    sent_on = k.sent_on;
    kept = λ j.
        ap (λ l. buffer_of j m ++ l) (taken_off-append j arrived ((ch, e) ∷ []))
        ∙ sym (append_assoc (buffer_of j m) (taken_off j arrived) (taken_off j ((ch, e) ∷ [])))
        ∙ ap (λ l. l ++ taken_off j ((ch, e) ∷ [])) (k.kept j)
        ∙ append_assoc (taken_off j k.log) (buffer_of j r.channels) (taken_off j ((ch, e) ∷ []))
        ∙ ap (λ l. taken_off j k.log ++ l) (sym (grown ch e r.channels m' h j));
  }

  closes-Relays :
      (ch : ℕ) (m' : Channels)
      → close ch r.channels ≡ some m'
      → Relays chs m arrived (record r { channels = m' })
  closes-Relays ch m' h = record {
    log = k.log;
    theirs = k.theirs;
    sent_on = k.sent_on;
    kept =
        λ j. k.kept j ∙ ap (λ l. taken_off j k.log ++ l) (sym (closed_same ch r.channels m' h j));
  }

  after_merge-Relays :
      (x : Merged × Channels)
      → r.running ≡ true
      → Merges chs r.channels x
      → Relays chs m arrived (after_merge x.0 x.1 r)
  after_merge-Relays _ up waited = record {
    log = k.log;
    theirs = k.theirs;
    sent_on = k.sent_on;
    kept = k.kept;
  }
  after_merge-Relays _ up (took ch e m' among law) = record {
    log = k.log ++ (ch, e) ∷ [];
    theirs = AllTheirs-append chs k.log ch e k.theirs among;
    sent_on = ground (
      arith,
      up,
      k.sent_on,
      events_of-append k.log ((ch, e) ∷ []),
      append-nil (events_of k.log),
      append-nil (events_of (k.log ++ (ch, e) ∷ [])),
    );
    kept = λ j.
        k.kept j
        ∙ ap (λ l. taken_off j k.log ++ l) (law j ∙ split_first j ch e m')
        ∙ sym (append_assoc (taken_off j k.log) (taken_off j ((ch, e) ∷ [])) (buffer_of j m'))
        ∙ ap (λ l. l ++ buffer_of j m') (sym (taken_off-append j k.log ((ch, e) ∷ [])));
  }
  after_merge-Relays _ up ended = record {
    log = k.log;
    theirs = k.theirs;
    sent_on = ground (arith, up, k.sent_on, append-nil (events_of k.log));
    kept = k.kept;
  }

  turns-Relays : (chosen : ℕ) → Relays chs m arrived (relay chs chosen r)
  turns-Relays chosen = elim (Bool-cases r.running) [
    | inl up ↦
        subst (Relays chs m arrived) (relay_up chs chosen r up)
          (after_merge-Relays _ up (merge-Merges chs chosen r.channels))
    | inr down ↦ subst (Relays chs m arrived) (relay_down chs chosen r down) k
  ]

RelayStep-Relays :
    (chs : List (Option ℕ)) (m : Channels) (arrived : List (ℕ × Event)) {r t : Relay}
    → Relays chs m arrived r
    → (step : RelayStep chs r t) → Relays chs m (arrived ++ arrived_by step) t
RelayStep-Relays chs m arrived {r} k (turns chosen) =
    subst (λ l. Relays chs m l (relay chs chosen r)) (sym (append-nil arrived))
      (turns-Relays chs m arrived r k chosen)
RelayStep-Relays chs m arrived {r} k (arrives ch e m' h) =
    arrives-Relays chs m arrived r k ch e m' h
RelayStep-Relays chs m arrived {r} k (closes ch m' h) =
    subst (λ l. Relays chs m l (record r { channels = m' })) (sym (append-nil arrived))
      (closes-Relays chs m arrived r k ch m' h)

-- However the merged consumer's loop chooses among its consumers' channels, and whatever arrives on them
-- and whichever are closed between its rounds, it sends on events of these channels alone, followed by the
-- empty event exactly if it has ended: of what each channel held and then got, the first ones, in their
-- order, each once, while the buffer keeps the others. No one else reads the channels.
pub relay_keeps_order :
    (chs : List (Option ℕ)) (m : Channels) {r : Relay} (steps : RelaySteps chs (begin m) r)
    → Relays chs m (arrived_along steps) r
relay_keeps_order chs m here = record {
  log = [];
  theirs = tt;
  sent_on = refl;
  kept = λ ch. append-nil (buffer_of ch m);
}
relay_keeps_order chs m (next steps step) =
    RelayStep-Relays chs m (arrived_along steps) (relay_keeps_order chs m steps) step
