-- ===== src/Tests/MainTests.antt =====
-- The start of the program at concrete inputs.
use k8s_countermeasures.Prelude.{
  codes, contains, join, if◌then◌else◌, ℕ, suc, none, some, [], ◌∷◌, map, false, ◌≡◌, refl,
}
use k8s_countermeasures.Prelude.Trim.{trim_space}
use k8s_countermeasures.Outcome.{failed}
use k8s_countermeasures.Main.{
  Flags, Setup, Call, Options, comma, manager_options, watch_namespace, main, exited,
}
use k8s_countermeasures.Main.Namespaces.{Padded, IsPadded, written, written_namespaces_watched}
use k8s_countermeasures.Main.Starting.{refused, ended, all_calls, calls, main-calls}

abbrev flags : Flags
flags = record {
  metrics_addr = codes ":8080";
  probe_addr = codes ":8081";
  enable_leader_election = false;
}

abbrev team : Padded
team = record { before = []; namespace = codes "team"; after = [] }

abbrev prod : Padded
prod = record { before = codes " "; namespace = codes "prod"; after = codes " " }

team-IsPadded : IsPadded team
unfolding contains trim_space
team-IsPadded = record { spaces_before = tt; spaces_after = tt; plain = refl; trimmed = refl }

prod-IsPadded : IsPadded prod
unfolding contains trim_space
prod-IsPadded = record {
  spaces_before = (refl, tt);
  spaces_after = (refl, tt);
  plain = refl;
  trimmed = refl;
}

abbrev options : Options
options =
    manager_options flags (watch_namespace (some (join comma (map written (team ∷ prod ∷ [])))))

written_namespaces_watched_example :
    (options.new_cache ≡ some (map (λ x. x.namespace) (team ∷ prod ∷ [])))
    × (options.namespace ≡ [])
written_namespaces_watched_example =
    written_namespaces_watched flags team prod [] (team-IsPadded, (prod-IsPadded, tt))

-- The world counts the calls; the lock is refused.
abbrev counted : Call ℕ
counted n = (none, suc n)

abbrev setup : Setup
setup = record {
  World = ℕ;
  become = λ n. (some (failed (codes "no lock")), suc n);
  new_manager = λ o. counted;
  add_bus = λ n. n;
  add_producers = λ n. n;
  setup_counter_measures = counted;
  setup_prometheus = counted;
  setup_counter_measure_webhook = counted;
  setup_prometheus_webhook = counted;
  add_healthz_check = counted;
  add_readyz_check = counted;
  start = counted;
}

main-calls_example : main setup flags none [] 0 ≡ (
    if refused setup flags none [] (setup.become 0).0
    then (exited 21, (setup.become 0).1)
    else ended (all_calls (calls setup flags none []) (setup.become 0).1))
main-calls_example = main-calls setup flags none [] 0
