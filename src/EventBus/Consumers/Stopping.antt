-- ===== src/EventBus/Consumers/Stopping.antt =====
-- pkg/eventbus/consumer.go: the end of the loop of `MergeConsumers`, and what comes after it.
use mathlib.Core.List.{append_assoc, append-nil}
use k8s_countermeasures.Prelude.{
  Option, some, List, [], ◌∷◌, ◌++◌, true, false, ℕ, ◌≡◌, refl, sym, ap, ◌∙◌, arith, subst,
}
use k8s_countermeasures.Events.{Event}
use k8s_countermeasures.EventBus.Bus.{receive, closed}
use k8s_countermeasures.EventBus.Bus.Sending.{buffer_of}
use k8s_countermeasures.EventBus.Consumers.{
  empty_event, nth_case, merge, relay, Relay, RelayStep, turns, arrives, closes, RelaySteps, here,
  next,
}
use k8s_countermeasures.EventBus.Consumers.Relaying.{
  taken_off, taken_off-append, arrived_by, arrived_along, relay_down, grown, closed_same,
}

-- The loop has ended: what it sent is as it was, and the buffers only grow, by what arrives.
pub record IsOver (r : Relay) (arrived : List (ℕ × Event)) (t : Relay) : Type 0 where
  pub over : t.running ≡ false
  pub same : t.relayed ≡ r.relayed
  pub held : (ch : ℕ) → buffer_of ch t.channels ≡ buffer_of ch r.channels ++ taken_off ch arrived

RelayStep-IsOver :
    (chs : List (Option ℕ)) (r : Relay) (arrived : List (ℕ × Event)) {s t : Relay}
    → IsOver r arrived s
    → (step : RelayStep chs s t) → IsOver r (arrived ++ arrived_by step) t
RelayStep-IsOver chs r arrived {s} k (turns chosen) =
    subst (λ l. IsOver r l (relay chs chosen s)) (sym (append-nil arrived))
      (subst (IsOver r arrived) (relay_down chs chosen s k.over) k)
RelayStep-IsOver chs r arrived {s} k (arrives ch e m h) = record {
  over = k.over;
  same = k.same;
  held = λ j.
      grown ch e s.channels m h j
      ∙ ap (λ l. l ++ taken_off j ((ch, e) ∷ [])) (k.held j)
      ∙ append_assoc (buffer_of j r.channels) (taken_off j arrived) (taken_off j ((ch, e) ∷ []))
      ∙ ap (λ l. buffer_of j r.channels ++ l) (sym (taken_off-append j arrived ((ch, e) ∷ [])));
}
RelayStep-IsOver chs r arrived {s} k (closes ch m h) =
    subst (λ l. IsOver r l (record s { channels = m })) (sym (append-nil arrived))
      (record {
        over = k.over;
        same = k.same;
        held = λ j. closed_same ch s.channels m h j ∙ k.held j;
      })

RelaySteps-IsOver :
    (chs : List (Option ℕ)) (r : Relay) {t : Relay}
    → r.running ≡ false
    → (steps : RelaySteps chs r t) → IsOver r (arrived_along steps) t
RelaySteps-IsOver chs r down here = record {
  over = down;
  same = refl;
  held = λ ch. sym (append-nil (buffer_of ch r.channels));
}
RelaySteps-IsOver chs r down (next steps step) =
    RelayStep-IsOver chs r (arrived_along steps) (RelaySteps-IsOver chs r down steps) step

relay-closed :
    (chs : List (Option ℕ)) (chosen ch : ℕ) (r : Relay)
    → r.running ≡ true
    → nth_case chosen chs ≡ some (some ch)
    → receive ch r.channels ≡ (closed, r.channels)
    → relay chs chosen r
      ≡ record { channels = r.channels; relayed = r.relayed ++ empty_event ∷ []; running = false }
unfolding relay merge
relay-closed chs chosen ch r up case drained = ground (arith, up, case, drained)

-- Once a running loop chooses a channel that is closed and has no event left, it has sent one empty event
-- more, and whatever arrives, is closed or would be chosen later, it sends nothing else: every event that
-- a channel held then or gets afterwards stays in its buffer.
pub closed_channel_strands :
    (chs : List (Option ℕ)) (chosen ch : ℕ) (r : Relay) {t : Relay}
    → r.running ≡ true
    → nth_case chosen chs ≡ some (some ch)
    → receive ch r.channels ≡ (closed, r.channels)
    → (steps : RelaySteps chs (relay chs chosen r) t)
    → (t.relayed ≡ r.relayed ++ empty_event ∷ [])
      × ((j : ℕ)
          → buffer_of j t.channels ≡ buffer_of j r.channels ++ taken_off j (arrived_along steps))
closed_channel_strands chs chosen ch r up case drained steps =
    let ended = relay-closed chs chosen ch r up case drained in
    let k =
      RelaySteps-IsOver chs (relay chs chosen r) (ap (λ (x : Relay). x.running) ended) steps in
    (
      k.same ∙ ap (λ (x : Relay). x.relayed) ended,
      λ j.
          k.held j
          ∙ ap (λ (x : Relay). buffer_of j x.channels ++ taken_off j (arrived_along steps)) ended,
    )
