-- ===== src/Main/Starting.antt =====
-- main.go: how the program ends, against the plain list of the calls that have to succeed.
use k8s_countermeasures.Prelude.{
  Text, codes, text_eq, ◌==◌, if◌then◌else◌, Option, none, some, List, [], ◌∷◌, ◌++◌, Bool, true,
  false, not, ◌≡◌, refl, inl, inr, arith, Option-cases, Bool-cases,
}
use k8s_countermeasures.Outcome.{Error, error_text}
use k8s_countermeasures.Main.{
  err_no_namespace, Flags, manager_options, watch_namespace, Ended, exited, returned, Call, Setup,
  or_exit, become_leader, setup_webhooks, main,
}

-- The calls in turn, up to the first that fails.
abbrev pub all_calls : {W : Type 0} → List (Call W) → W → Option Error × W
all_calls [] w = (none, w)
all_calls (call ∷ calls) w =
    let (e, w') = call w in elim e [ none ↦ all_calls calls w' | some e ↦ (some e, w') ]

abbrev pub ended : {W : Type 0} → Option Error × W → Ended × W
ended (none, w) = (returned, w)
ended (some e, w) = (exited 1, w)

or_exit_all :
    {W : Type 0} (call : Call W) (calls : List (Call W)) (next : W → Ended × W)
    → ((w : W) → next w ≡ ended (all_calls calls w))
    → (w : W) → or_exit call next w ≡ ended (all_calls (call ∷ calls) w)
unfolding or_exit
or_exit_all call calls next h w = elim (Option-cases (call w).0) [
  | inl e ↦ ground (arith, e, h (call w).1)
  | inr (x, e) ↦ ground (arith, e)
]

-- A call that is only made for its effect.
abbrev pub added : {W : Type 0} → (W → W) → Call W
added add w = (none, add w)

module _ (s : Setup) (flags : Flags) (watched : Option Text) (enable_webhooks : Text) where
  abbrev pub webhook_calls : List (Call s.World)
  webhook_calls =
      if enable_webhooks == codes "false"
      then []
      else s.setup_counter_measure_webhook ∷ s.setup_prometheus_webhook ∷ []

  abbrev pub serve_calls : List (Call s.World)
  serve_calls = s.add_healthz_check ∷ s.add_readyz_check ∷ s.start ∷ []

  -- What follows when the leader is settled.
  abbrev pub calls : List (Call s.World)
  calls =
      s.new_manager (manager_options flags (watch_namespace watched))
        ∷ added s.add_bus
        ∷ s.setup_counter_measures
        ∷ added s.add_producers
        ∷ s.setup_prometheus
        ∷ webhook_calls
      ++ serve_calls

  -- The lock is refused for another reason than that the program runs outside of a cluster.
  abbrev pub refused : Option Error → Bool
  refused none = false
  refused (some e) = not (error_text e == error_text err_no_namespace)

  hooked :
      (disabled : Bool) (next : s.World → Ended × s.World) (rest : List (Call s.World))
      → ((w : s.World) → next w ≡ ended (all_calls rest w))
      → (w : s.World)
      → (if disabled
            then next
            else or_exit s.setup_counter_measure_webhook (or_exit s.setup_prometheus_webhook next))
          w
        ≡ ended (
            all_calls
              ((if disabled
                  then []
                  else s.setup_counter_measure_webhook ∷ s.setup_prometheus_webhook ∷ [])
                ++ rest)
              w)
  hooked true next rest h w = h w
  hooked false next rest h w =
      or_exit_all s.setup_counter_measure_webhook (s.setup_prometheus_webhook ∷ rest) _
        (or_exit_all s.setup_prometheus_webhook rest next h) w

  -- `main` from the new manager on.
  abbrev set_up : s.World → Ended × s.World
  set_up = or_exit (s.new_manager (manager_options flags (watch_namespace watched))) (λ w.
      or_exit s.setup_counter_measures
        (λ v.
          or_exit s.setup_prometheus
            (setup_webhooks s flags watched enable_webhooks (
              or_exit s.add_healthz_check
                (or_exit s.add_readyz_check (or_exit s.start (λ u. (returned, u))))))
            (s.add_producers v))
        (s.add_bus w))

  set_up_lem : (w : s.World) → set_up w ≡ ended (all_calls calls w)
  unfolding setup_webhooks
  set_up_lem =
      let hooks = webhook_calls ++ serve_calls in
      or_exit_all (s.new_manager _)
        (added s.add_bus
          ∷ s.setup_counter_measures
          ∷ added s.add_producers
          ∷ s.setup_prometheus
          ∷ hooks)
        _
        (λ w.
          or_exit_all s.setup_counter_measures (added s.add_producers ∷ s.setup_prometheus ∷ hooks)
            _
            (λ v.
              or_exit_all s.setup_prometheus hooks _
                (hooked (enable_webhooks == codes "false") _ serve_calls (
                  or_exit_all s.add_healthz_check (s.add_readyz_check ∷ s.start ∷ []) _ (
                    or_exit_all s.add_readyz_check (s.start ∷ []) _
                      (or_exit_all s.start [] _ (λ u. refl)))))
                (s.add_producers v))
            (s.add_bus w))

  -- The program exits with 21 exactly if it does not elect a leader by lease and its lock is refused for
  -- another reason than that there is no namespace, and then nothing else is called. Otherwise it makes
  -- the calls that set it up, in their order, with the webhooks unless they are disabled: it returns
  -- if all of them succeed, and exits with 1 at the first that fails.
  pub main-calls :
      (w : s.World)
      → let locked = if flags.enable_leader_election then (none, w) else s.become w in
        main s flags watched enable_webhooks w
        ≡ (if refused locked.0 then (exited 21, locked.1) else ended (all_calls calls locked.1))
  unfolding main become_leader
  main-calls w = elim (Bool-cases flags.enable_leader_election) [
    | inl e ↦ ground (arith, e, set_up_lem w)
    | inr e ↦ elim (Option-cases (s.become w).0) [
      | inl g ↦ ground (arith, e, g, set_up_lem (s.become w).1)
      | inr (x, g) ↦ elim (Bool-cases (error_text x == error_text err_no_namespace)) [
        | inl same ↦ ground (arith, e, g, same, set_up_lem (s.become w).1)
        | inr other ↦ ground (arith, e, g, other)
      ]
    ]
  ]
