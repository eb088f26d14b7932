-- ===== src/Actions/Manager/Serving.antt =====
-- The goroutine of a countermeasure over a burst of events.
use k8s_countermeasures.Prelude.{
  Text, text_eq, lookup, Map, DistinctKeys, ==_iff, ℕ, zero, suc, some, List, [], ◌∷◌, true, false,
  ◌≡◌, refl, sym, ap, ◌∙◌, subst, arith, lookup-insert_self,
}
use k8s_countermeasures.Prelude.Int.{ℤ, ◌+ℤ◌, ◌≤ℤ◌, lt_ℤ}
use k8s_countermeasures.Manager.{ObjectKey, object_key_eq}
use k8s_countermeasures.Outcome.{ok}
use k8s_countermeasures.Events.{Event}
use k8s_countermeasures.Events
use k8s_countermeasures.State.{
  ActionState, Entry, get_counter_measure, is_suppressed, within, drop_expired,
  clear_expired_last_runs, record_run,
}
use k8s_countermeasures.State.Suppression.{duration_of, ran, get_lem}
use k8s_countermeasures.State.Validity.{clear-DistinctKeys, record_run-DistinctKeys}
use k8s_countermeasures.Actions.Cluster.{Cluster}
use k8s_countermeasures.Actions.Perform.{Action}
use k8s_countermeasures.Actions.Registry.{Registry, new_runner}
use k8s_countermeasures.Actions.Runner.{Retry, RunState, run}
use k8s_countermeasures.Actions.Manager.{Round, handle, serve, skip}
use k8s_countermeasures.Actions.Manager.Handling.{handle_suppressed, handle_runs}

-- The entry of a countermeasure that suppresses the events with a key up to a time.
pub record IsSuppressing (s : ActionState) (key : ObjectKey) (event_key : Text) (until : ℤ)
    : Type 0 where
  pub entry : Entry
  pub there : lookup key s.measures ≡ some entry
  pub distinct : DistinctKeys entry.last_runs
  pub recorded : lookup event_key entry.last_runs ≡ some until

-- Each round is of an event with the key, and is over before the time.
abbrev pub AllBefore : Text → ℤ → List Round → Type 0
AllBefore event_key until [] = Unit {0}
AllBefore event_key until (r ∷ rs) =
    (Events.key r.event ≡ event_key)
    × (r.found ≤ℤ r.checked)
    × (lt_ℤ r.checked until ≡ true)
    × AllBefore event_key until rs

lookup-drop_expired_kept :
    (k : Text) (now until : ℤ) (m : Map Text ℤ)
    → lookup k m ≡ some until
    → lt_ℤ until now ≡ false
    → lookup k (drop_expired now m) ≡ some until
unfolding lookup drop_expired
lookup-drop_expired_kept k now until [] h le = ground (arith, h)
lookup-drop_expired_kept k now until ((j, u) ∷ m) h le =
    ground (arith, h, ==_iff j k, lookup-drop_expired_kept k now until m)

not_past : (a b u : ℤ) → a ≤ℤ b → lt_ℤ b u ≡ true → lt_ℤ u a ≡ false
not_past a b u h k = ground arith

suppresses :
    (e : Entry) (event : Event) (checked until : ℤ)
    → lookup (Events.key event) e.last_runs ≡ some until
    → lt_ℤ checked until ≡ true
    → is_suppressed e event checked ≡ true
unfolding is_suppressed within
suppresses e event checked until h k = ground (arith, h, k)

get-IsSuppressing :
    (s : ActionState) (key : ObjectKey) (event_key : Text) (until now : ℤ)
    → IsSuppressing s key event_key until
    → lt_ℤ until now ≡ false
    → IsSuppressing (get_counter_measure s key now).1 key event_key until
get-IsSuppressing s key event_key until now h le =
    subst (λ x. IsSuppressing x key event_key until)
      (sym (ap (λ x. x.1) (get_lem s key now h.entry h.there)))
      (record {
        entry = clear_expired_last_runs h.entry now;
        there = lookup-insert_self key (clear_expired_last_runs h.entry now) s.measures;
        distinct = clear-DistinctKeys h.entry now h.distinct;
        recorded =
            unfold clear_expired_last_runs in
            lookup-drop_expired_kept event_key now until h.entry.last_runs h.recorded le;
      })

ran_recorded :
    (e : Entry) (event : Event) (now d : ℤ)
    → duration_of e ≡ some d
    → lookup (Events.key event) (ran e event now).last_runs ≡ some (now +ℤ d)
unfolding record_run
ran_recorded e event now d hd =
    ground (arith, hd, lookup-insert_self (Events.key event) (now +ℤ d) e.last_runs)

abbrev pub count_rounds : List Round → ℕ
count_rounds [] = zero
count_rounds (r ∷ rounds) = suc (count_rounds rounds)

module _ (c : Cluster) (retry : Retry c.World) (registry : Registry) where
  abbrev pub skips : ℕ → RunState c.World → RunState c.World
  skips zero rs = rs
  skips (suc n) rs = skips n (skip c retry registry rs)

  serve_next :
      (s s' : ActionState) (key : ObjectKey) (r : Round) (rounds : List Round)
      (rs rs' : RunState c.World)
      → handle c retry registry s r.event key r.found r.checked r.started rs ≡ some (s', rs')
      → serve c retry registry s key (r ∷ rounds) rs ≡ serve c retry registry s' key rounds rs'
  unfolding serve
  serve_next s s' key r rounds rs rs' e = ground (arith, e)

  serve_suppressed :
      (s : ActionState) (key : ObjectKey) (event_key : Text) (until : ℤ) (rounds : List Round)
      (rs : RunState c.World)
      → IsSuppressing s key event_key until
      → AllBefore event_key until rounds
      → (t : ActionState) × (serve c retry registry s key rounds rs
          ≡ some (t, skips (count_rounds rounds) rs))
        × IsSuppressing t key event_key until
  serve_suppressed s key event_key until [] rs h b = (s, unfold serve in refl, h)
  serve_suppressed s key event_key until (r ∷ rounds) rs h (same, le, short, b) =
      let mine : lookup (Events.key r.event) h.entry.last_runs ≡ some until =
        ap (λ k. lookup k h.entry.last_runs) same ∙ h.recorded in
      let round =
        handle_suppressed c retry registry s r.event key r.found r.checked r.started rs h.entry
          h.there h.distinct le (suppresses h.entry r.event r.checked until mine short) in
      let tidy =
        get-IsSuppressing s key event_key until r.found h
          (not_past r.found r.checked until le short) in
      let (t, e, h') =
        serve_suppressed (get_counter_measure s key r.found).1 key event_key until rounds
          (skip c retry registry rs) tidy b in
      (t, serve_next s _ key r rounds rs _ round ∙ e, h')

  module _ (s : ActionState) (key : ObjectKey) (r : Round) (rs : RunState c.World) (e : Entry)
      (xs : List Action) (there : lookup key s.measures ≡ some e)
      (runner : new_runner registry e.counter_measure.spec ≡ ok xs) where
    -- However many events with one key arrive in a burst, the countermeasure acts once: if the entry is
    -- deployed with a suppression policy and does not suppress the first event, and the round of the
    -- first does not panic, that round performs the actions, and each of the others is skipped, as long
    -- as the policy's duration runs from the start of the first; no round panics.
    pub burst_runs_once :
        (repeats : List Round) (d : ℤ) (s' : ActionState) (rs' : RunState c.World)
        → DistinctKeys e.last_runs
        → r.found ≤ℤ r.checked
        → is_suppressed e r.event r.checked ≡ false
        → duration_of e ≡ some d
        → handle c retry registry s r.event key r.found r.checked r.started rs ≡ some (s', rs')
        → AllBefore (Events.key r.event) (r.started +ℤ d) repeats
        → (run c retry e.counter_measure r.event xs rs ≡ some rs')
          × ((t : ActionState) × (serve c retry registry s key (r ∷ repeats) rs
                ≡ some (t, skips (count_rounds repeats) rs'))
              × IsSuppressing t key (Events.key r.event) (r.started +ℤ d))
    burst_runs_once repeats d s' rs' dist le quiet hd done before =
        let (p, state) =
          handle_runs c retry registry s r.event key r.found r.checked r.started rs e xs there
            runner s' rs' dist le quiet done in
        let after : IsSuppressing s' key (Events.key r.event) (r.started +ℤ d) =
          subst (λ x. IsSuppressing x key (Events.key r.event) (r.started +ℤ d)) state
            (record {
              entry = ran (clear_expired_last_runs e r.found) r.event r.started;
              there = lookup-insert_self key _ _;
              distinct =
                  record_run-DistinctKeys _ r.event r.started (clear-DistinctKeys e r.found dist);
              recorded =
                  ran_recorded (clear_expired_last_runs e r.found) r.event r.started d
                    (unfold clear_expired_last_runs in hd);
            }) in
        let (t, h, kept) =
          serve_suppressed s' key (Events.key r.event) (r.started +ℤ d) repeats rs' after before in
        (p, (t, serve_next s s' key r repeats rs rs' done ∙ h, kept))
