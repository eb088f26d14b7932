-- ===== src/EventBus/System/Progress.antt =====
-- pkg/eventbus/eventbus.go: a worker's delivery, step by step, against the loop of `deliver`.
use k8s_countermeasures.Prelude.{
  Map, ℕ, some, List, [], ◌∷◌, ◌≡◌, ◌≢◌, refl, subst, ◌∙◌, inl, inr, arith, nat_eq, nat_beq_iff,
}
use k8s_countermeasures.EventBus.Bus.{
  Channel, Message, valid, WorkQueue, send, sent, not_ready, Delivery, delivered, interrupted,
  deliver, finish,
}
use k8s_countermeasures.EventBus.Bus.Sending.{send_open}
use k8s_countermeasures.EventBus.System.{
  Worker, idle, delivering, update, System, with_sent, with_full, send_next, end_delivery, Step,
  sends, ends, Steps, next,
}
use k8s_countermeasures.EventBus.System.Safety.{IsSafe, head_open, Step-Succeeds}

update_same : (workers : ℕ → Worker) (i : ℕ) (w : Worker) → update workers i w i ≡ w
update_same workers i w = ground (arith, nat_beq_iff i i)

update_other :
    (workers : ℕ → Worker) (i j : ℕ) (w : Worker) → j ≢ i → update workers i w j ≡ workers j
update_other workers i j w h = ground (arith, nat_beq_iff j i, h)

module _ (q : WorkQueue) where
  -- The end of a delivery by worker `i`, which had the channels `chs` left in the state `s`.
  pub record IsDone (s t : System q) (i : ℕ) (m : Message) (chs : List ℕ) (d : Delivery)
      : Type 0 where
    pub free : t.workers i ≡ idle
    pub others : (j : ℕ) → j ≢ i → t.workers j ≡ s.workers j
    pub queued : t.queue ≡ finish q (valid m) s.queue d
    pub subscribed : t.bus.subscribers ≡ s.bus.subscribers
    pub delivers : deliver chs m.event s.bus.channels ≡ some (d, t.bus.channels)

  sent-IsDone :
      (s : System q) (i : ℕ) (m : Message) (ch : ℕ) (chs : List ℕ) (channels : Map ℕ Channel)
      (t : System q) (d : Delivery)
      → send ch m.event s.bus.channels ≡ sent channels
      → IsDone (with_sent q s i m chs channels) t i m chs d
      → IsDone s t i m (ch ∷ chs) d
  unfolding with_sent
  sent-IsDone s i m ch chs channels t d e r = record {
    free = r.free;
    others = λ j h. r.others j h ∙ update_other s.workers i j _ h;
    queued = r.queued;
    subscribed = r.subscribed;
    delivers = unfold deliver in ground (arith, e, r.delivers);
  }

  full-IsDone :
      (s : System q) (i : ℕ) (m : Message) (ch : ℕ) (chs : List ℕ)
      → send ch m.event s.bus.channels ≡ not_ready
      → IsDone s (with_full q s i m) i m (ch ∷ chs) interrupted
  unfolding with_full
  full-IsDone s i m ch chs e = record {
    free = update_same s.workers i idle;
    others = λ j h. update_other s.workers i j idle h;
    queued = refl;
    subscribed = refl;
    delivers = unfold deliver in ground (arith, e);
  }

  end-IsDone :
      (s : System q) (i : ℕ) (m : Message) → IsDone s (end_delivery q s i m) i m [] delivered
  unfolding end_delivery
  end-IsDone s i m = record {
    free = update_same s.workers i idle;
    others = λ j h. update_other s.workers i j idle h;
    queued = refl;
    subscribed = refl;
    delivers = unfold deliver in refl;
  }

  pub sent-Step :
      (s : System q) (i : ℕ) (m : Message) (ch : ℕ) (chs : List ℕ) (channels : Map ℕ Channel)
      → s.workers i ≡ delivering m (ch ∷ chs)
      → send ch m.event s.bus.channels ≡ sent channels
      → Step q s (some (with_sent q s i m chs channels))
  sent-Step s i m ch chs channels at e =
      let result : send_next q s i m ch chs ≡ some (with_sent q s i m chs channels) =
        unfold send_next in ground (arith, e) in
      let step : Step q s (send_next q s i m ch chs) = sends i m ch chs at in
      subst (Step q s) result step

  full-Step :
      (s : System q) (i : ℕ) (m : Message) (ch : ℕ) (chs : List ℕ)
      → s.workers i ≡ delivering m (ch ∷ chs)
      → send ch m.event s.bus.channels ≡ not_ready
      → Step q s (some (with_full q s i m))
  full-Step s i m ch chs at e =
      let result : send_next q s i m ch chs ≡ some (with_full q s i m) =
        unfold send_next in ground (arith, e) in
      let step : Step q s (send_next q s i m ch chs) = sends i m ch chs at in
      subst (Step q s) result step

  -- In a safe state that the steps have led to, a worker that has a message and channels left can
  -- finish by steps of its own, whatever those before were: the state after them is safe, the worker
  -- is idle and the others as they were, the buffers and the end are those of the loop over the
  -- channels, and the queue forgets the message, or takes it again if a channel was full.
  pub worker_finishes :
      {first : System q} (s : System q) (i : ℕ) (m : Message) (chs : List ℕ)
      → Steps q first s
      → IsSafe q s
      → s.workers i ≡ delivering m chs
      → (t : System q) × (d : Delivery) × Steps q first t × IsSafe q t × IsDone s t i m chs d
  worker_finishes s i m [] steps v at =
      let step : Step q s (some (end_delivery q s i m)) = ends i m at in
      (end_delivery q s i m, delivered, next steps step, Step-Succeeds q s v step, end-IsDone s i m)
  worker_finishes s i m (ch ∷ chs) steps v at =
      elim (send_open ch m.event s.bus.channels (head_open q v at).0) [
        | inl (channels, e, _, _) ↦
            let u = with_sent q s i m chs channels in
            let step = sent-Step s i m ch chs channels at e in
            let free : u.workers i ≡ delivering m chs =
              unfold with_sent in update_same s.workers i (delivering m chs) in
            let (t, d, steps', v', done) =
              worker_finishes u i m chs (next steps step) (Step-Succeeds q s v step) free in
            (t, d, steps', v', sent-IsDone s i m ch chs channels t d e done)
        | inr (e, _) ↦
            let step = full-Step s i m ch chs at e in
            (
              with_full q s i m,
              interrupted,
              next steps step,
              Step-Succeeds q s v step,
              full-IsDone s i m ch chs e,
            )
      ]
