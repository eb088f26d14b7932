-- ===== src/Main.antt =====
-- main.go: the options of the manager and the order in which the program is set up.
pub mod Namespaces
pub mod Starting
use k8s_countermeasures.Prelude.{
  Text, codes, text_eq, split, contains, ◌==◌, if◌then◌else◌, ℕ, Option, none, some, List, [], ◌∷◌,
  map, Bool, true, false,
}
use k8s_countermeasures.Prelude.Trim.{trim_space}
use k8s_countermeasures.Outcome.{Outcome, Error, error_text, ok, err, panic, failed}

abbrev pub err_no_namespace : Error
err_no_namespace = failed (codes "namespace not found for current environment")

-- The flags of the command line.
pub record Flags : Type 0 where
  pub metrics_addr : Text
  pub probe_addr : Text
  pub enable_leader_election : Bool

-- `ctrl.Options`. The cache is that of the listed namespaces, if it is set.
pub record Options : Type 0 where
  pub metrics_bind_address : Text
  pub port : ℕ
  pub health_probe_bind_address : Text
  pub leader_election : Bool
  pub leader_election_id : Text
  pub namespace : Text
  pub new_cache : Option (List Text)

abbrev pub comma : ℕ
comma = b','

-- `os.LookupEnv`: the variable's value, if it is set.
unfoldable pub get_watch_namespace : Option Text → Outcome Text
get_watch_namespace none = err (failed (codes "WATCH_NAMESPACE must be set"))
get_watch_namespace (some ns) = ok ns

-- An error is logged, and the namespace is then empty.
unfoldable pub watch_namespace : Option Text → Text
watch_namespace variable = elim (get_watch_namespace variable) [
  | ok ns ↦ ns
  | err _ ↦ []
  | panic ↦ []
]

unfoldable pub manager_options : Flags → Text → Options
manager_options flags ns =
    let several = contains comma ns in
    record {
      metrics_bind_address = flags.metrics_addr;
      port = 9443;
      health_probe_bind_address = flags.probe_addr;
      leader_election = flags.enable_leader_election;
      leader_election_id = codes "b444787d.vilaverde.rocks";
      namespace = if several then [] else ns;
      new_cache = if several then some (map trim_space (split comma ns)) else none;
    }

-- How the program ends: by `os.Exit`, or by the return of `main`.
pub data Ended : Type 0 where
  exited : ℕ → Ended
  returned : Ended

abbrev pub Call : Type 0 → Type 0
Call W = W → Option Error × W

-- The calls of the libraries and of the controllers, each with the error that it returns.
pub record Setup : Type 1 where
  pub World : Type 0
  pub become : Call World
  pub new_manager : Options → Call World
  -- an error of `mgr.Add` is not looked at
  pub add_bus : World → World
  pub add_producers : World → World
  pub setup_counter_measures : Call World
  pub setup_prometheus : Call World
  pub setup_counter_measure_webhook : Call World
  pub setup_prometheus_webhook : Call World
  pub add_healthz_check : Call World
  pub add_readyz_check : Call World
  pub start : Call World

-- `if err := call(); err != nil { os.Exit(1) }`, and what follows.
unfoldable pub or_exit : {W : Type 0} → Call W → (W → Ended × W) → W → Ended × W
or_exit call next w = let (e, w') = call w in elim e [ none ↦ next w' | some _ ↦ (exited 1, w') ]

module _ (s : Setup) (flags : Flags) (watched : Option Text) (enable_webhooks : Text) where
  unfoldable pub become_leader : (s.World → Ended × s.World) → s.World → Ended × s.World
  become_leader next w =
      if flags.enable_leader_election
      then next w
      else let (e, w') = s.become w in
        elim e [
          | none ↦ next w'
          | some e ↦
              if error_text e == error_text err_no_namespace then next w' else (exited 21, w')
        ]

  unfoldable pub setup_webhooks : (s.World → Ended × s.World) → s.World → Ended × s.World
  setup_webhooks next =
      if enable_webhooks == codes "false"
      then next
      else or_exit s.setup_counter_measure_webhook (or_exit s.setup_prometheus_webhook next)

  unfoldable pub main : s.World → Ended × s.World
  main =
      let options = manager_options flags (watch_namespace watched) in
      let serve =
        or_exit s.add_healthz_check
          (or_exit s.add_readyz_check (or_exit s.start (λ w. (returned, w)))) in
      become_leader (
        or_exit (s.new_manager options) (λ w.
          or_exit s.setup_counter_measures
            (λ v. or_exit s.setup_prometheus (setup_webhooks serve) (s.add_producers v))
            (s.add_bus w)))
