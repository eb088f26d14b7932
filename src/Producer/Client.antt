-- ===== src/Producer/Client.antt =====
-- pkg/producer/prometheus/prometheus.go: the client of the Prometheus API. `api.NewClient`, and what
-- the API answers to the query for alerts, are arguments.
use k8s_countermeasures.Prelude.{Text, codes, is_empty, if◌then◌else◌, Option, none, some, List}
use k8s_countermeasures.Outcome.{Outcome, ok, err, panic, wrap}
use k8s_countermeasures.Producer.Prometheus.{Alert}

-- `api.Config`: the address, and the user and the password of the round tripper for basic
-- authentication, if there is one.
pub record ClientConfig : Type 0 where
  pub address : Text
  pub basic_auth : Option (Text × Text)

unfoldable pub client_config : Text → Text → Text → ClientConfig
client_config address username password = record {
  address = address;
  basic_auth = if is_empty username then none else some (username, password);
}

-- An error of a call of a library, with a message before it.
unfoldable pub wrapped {ℓ} : {A : Type ℓ} → Text → Outcome A → Outcome A
wrapped message (ok a) = ok a
wrapped message (err e) = err (wrap message e)
wrapped message panic = panic

unfoldable pub new_prometheus_client :
    {C : Type 0} → (ClientConfig → Outcome C) → Text → Text → Text → Outcome C
unfolding client_config wrapped
new_prometheus_client new_client address username password =
    wrapped (codes "error creating client, ") (new_client (client_config address username password))

unfoldable pub get_active_alerts : Outcome (List Alert) → Outcome (List Alert)
unfolding wrapped
get_active_alerts answer = wrapped (codes "error querying prometheus: ") answer
