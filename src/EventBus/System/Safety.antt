-- ===== src/EventBus/System/Safety.antt =====
-- pkg/eventbus/eventbus.go: no order of the steps panics, and no buffer overflows.
use k8s_countermeasures.Prelude.{
  nat_eq, ◌==◌, if◌then◌else◌, ℕ, Option, none, some, List, ◌∷◌, Bool, true, false, ◌≡◌, ◌≢◌, sym,
  ap, subst, inl, inr, arith, Bool-cases,
}
use k8s_countermeasures.EventBus.Matcher.{subscriber_match}
use k8s_countermeasures.EventBus.Matcher.Topics.{enclosing, subscribed, subscriber_match_lem}
use k8s_countermeasures.EventBus.Bus.{Bus, Message, Item, valid, invalid, WorkQueue}
use k8s_countermeasures.EventBus.Bus.Sending.{
  Channels, AllOpen, AllOpen-of_count, AllOpen-ext, SameChannels, send_open,
}
use k8s_countermeasures.EventBus.Bus.Invariant.{IsValid, new_bus-IsValid, subscribe-IsValid}
use k8s_countermeasures.EventBus.Bus.Dispatch.{AllOpen_matched, with_channels-IsValid}
use k8s_countermeasures.EventBus.Bus.Leaving.{unsubscribe-cases}
use k8s_countermeasures.EventBus.Bus.Receiving.{receive-SameChannels}
use k8s_countermeasures.EventBus.Bus.Shutdown.{stop_closes}
use k8s_countermeasures.EventBus.System.{
  Worker, idle, delivering, update, System, AllIdle, start, take, with_sent, with_full, send_next,
  end_delivery, read, Step, subscribes, unsubscribes, publishes, takes, sends, ends, receives,
  stops, Steps, here, next,
}

-- A worker that delivers has only open channels before it.
abbrev pub IsReady : Worker → Channels → Type 0
IsReady idle m = Unit {0}
IsReady (delivering msg chs) m = AllOpen chs m

IsReady-same : (w : Worker) (m m' : Channels) → SameChannels m m' → IsReady w m → IsReady w m'
IsReady-same idle m m' same h = tt
IsReady-same (delivering msg chs) m m' same h = AllOpen-ext chs m m' same.opened h

IsReady-idle : (w : Worker) (m : Channels) → w ≡ idle → IsReady w m
IsReady-idle w m h = subst (λ x. IsReady x m) (sym h) tt

IsReady-update :
    (workers : ℕ → Worker) (i j : ℕ) (w : Worker) (m : Channels)
    → IsReady w m
    → IsReady (workers j) m
    → IsReady (update workers i w j) m
IsReady-update workers i j w m new old = elim (Bool-cases (j == i)) [
  | inl e ↦ rw e new
  | inr e ↦ rw e old
]

module _ (q : WorkQueue) where
  pub record IsSafe (s : System q) : Type 0 where
    pub bus_valid : IsValid s.bus
    pub ready : (i : ℕ) → IsReady (s.workers i) s.bus.channels

  pub start-IsSafe : (queue : q.Queue) → IsSafe (start q queue)
  start-IsSafe queue = record { bus_valid = new_bus-IsValid; ready = λ i. tt }

  -- A new bus, with no worker at work.
  changed-IsSafe :
      (s : System q) (b : Bus) → AllIdle q s → IsValid b → IsSafe (record s { bus = b })
  changed-IsSafe s b quiet v = record {
    bus_valid = v;
    ready = λ i. IsReady-idle (s.workers i) b.channels (quiet i);
  }

  -- No panic, and a safe state.
  abbrev pub Succeeds : Option (System q) → Type 0
  Succeeds none = ⊥
  Succeeds (some t) = IsSafe t

  matched-IsSafe :
      (s : System q) (i : ℕ) (m : Message) (rest : q.Queue) (chs : List ℕ) (ok : Bool)
      → IsSafe s
      → AllOpen chs s.bus.channels
      → IsSafe (
          if ok
          then record s { queue = rest; workers = update s.workers i (delivering m chs) }
          else record s { queue = q.done (valid m) (q.forget (valid m) rest) })
  matched-IsSafe s i m rest chs true v ready = record {
    bus_valid = v.bus_valid;
    ready = λ j. IsReady-update s.workers i j _ _ ready (v.ready j);
  }
  matched-IsSafe s i m rest chs false v ready = record { bus_valid = v.bus_valid; ready = v.ready }

  take-IsSafe :
      (s : System q) (i : ℕ) (item : Item) (rest : q.Queue)
      → IsSafe s
      → IsSafe (take q s i item rest)
  unfolding take
  take-IsSafe s i invalid rest v = record { bus_valid = v.bus_valid; ready = v.ready }
  take-IsSafe s i (valid m) rest v =
      let ts = enclosing m.topic in
      let matched = subscriber_match s.bus.subscribers m.topic in
      let same : matched.0 ≡ subscribed s.bus.subscribers ts =
        ap (λ p. p.0) (subscriber_match_lem s.bus.subscribers m.topic) in
      let ready : AllOpen matched.0 s.bus.channels =
        subst (λ chs. AllOpen chs s.bus.channels) (sym same)
          (AllOpen-of_count _ s.bus.channels
            (AllOpen_matched s.bus.subscribers s.bus.channels ts v.bus_valid.live)) in
      matched-IsSafe s i m rest matched.0 matched.1 v ready

  pub head_open :
      {s : System q} {i : ℕ} {m : Message} {chs : List ℕ}
      → IsSafe s
      → s.workers i ≡ delivering m chs
      → AllOpen chs s.bus.channels
  head_open {s} {i} v at = subst (λ w. IsReady w s.bus.channels) at (v.ready i)

  send_next-Succeeds :
      (s : System q) (i : ℕ) (m : Message) (ch : ℕ) (chs : List ℕ)
      → IsSafe s
      → s.workers i ≡ delivering m (ch ∷ chs)
      → Succeeds (send_next q s i m ch chs)
  send_next-Succeeds s i m ch chs v at =
      let ready = head_open v at in
      elim (send_open ch m.event s.bus.channels ready.0) [
        | inl (m', e, same, _) ↦
            let next : send_next q s i m ch chs ≡ some (with_sent q s i m chs m') =
              unfold send_next with_sent in ground (arith, e) in
            subst Succeeds (sym next) (
              unfold with_sent in
              record {
                bus_valid = with_channels-IsValid s.bus m' v.bus_valid same;
                ready = λ j.
                    IsReady-update s.workers i j _ m' (AllOpen-ext chs _ m' same.opened ready.1)
                      (IsReady-same (s.workers j) _ m' same (v.ready j));
              })
        | inr (e, _) ↦
            let next : send_next q s i m ch chs ≡ some (with_full q s i m) =
              unfold send_next with_full in ground (arith, e) in
            subst Succeeds (sym next) (
              unfold with_full in
              record {
                bus_valid = v.bus_valid;
                ready = λ j. IsReady-update s.workers i j idle _ tt (v.ready j);
              })
      ]

  pub Step-Succeeds : (s : System q) {o : Option (System q)} → IsSafe s → Step q s o → Succeeds o
  Step-Succeeds s v (subscribes topic quiet) =
      changed-IsSafe s _ quiet (subscribe-IsValid s.bus topic v.bus_valid)
  Step-Succeeds s v (unsubscribes topic ch quiet) =
      let (b, e, v', _) = unsubscribe-cases s.bus topic ch v.bus_valid in
      rw e (changed-IsSafe s b quiet v')
  Step-Succeeds s v (publishes topic event) = record { bus_valid = v.bus_valid; ready = v.ready }
  Step-Succeeds s v (takes i item rest free got) = take-IsSafe s i item rest v
  Step-Succeeds s v (sends i m ch chs at) = send_next-Succeeds s i m ch chs v at
  Step-Succeeds s v (ends i m at) =
      unfold end_delivery in
      record {
        bus_valid = v.bus_valid;
        ready = λ j. IsReady-update s.workers i j idle _ tt (v.ready j);
      }
  Step-Succeeds s v (receives ch) =
      let same = receive-SameChannels ch s.bus.channels in
      unfold read in
      record {
        bus_valid = with_channels-IsValid s.bus _ v.bus_valid same;
        ready = λ j. IsReady-same (s.workers j) _ _ same (v.ready j);
      }
  Step-Succeeds s v (stops quiet) =
      let (b, e, v', _, _, _) = stop_closes s.bus v.bus_valid in rw e (changed-IsSafe s b quiet v')

  -- Whatever the workers, the publishers, the subscribers and the consumers do, in whatever order, the
  -- bus is valid, its buffers hold at most ten events, and a worker has only open channels before it.
  pub Steps-IsSafe : {s t : System q} → IsSafe s → Steps q s t → IsSafe t
  Steps-IsSafe v here = v
  Steps-IsSafe v (next steps step) = Step-Succeeds _ (Steps-IsSafe v steps) step

  -- From a new bus with idle workers, the steps of the workers, the publishers, the subscribers and
  -- the consumers, in any order, lead to a state whose next step, if it has one, does not panic.
  pub never_panics :
      (queue : q.Queue) {s : System q} {o : Option (System q)}
      → Steps q (start q queue) s
      → Step q s o
      → o ≢ none
  never_panics queue steps step h =
      subst Succeeds h (Step-Succeeds _ (Steps-IsSafe (start-IsSafe queue) steps) step)
