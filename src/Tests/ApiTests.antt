-- ===== src/Tests/ApiTests.antt =====
-- The admission of countermeasures, the keys of resources and the ports at concrete inputs.
use k8s_countermeasures.Prelude.{codes, none, some, List, [], ◌∷◌, ◌≡◌, ◌↔◌, refl}
use k8s_countermeasures.Prelude.Int.{pos}
use k8s_countermeasures.Api.Validation.{validate_spec}
use k8s_countermeasures.Api.Validation.Admission.{IsAdmissible, validate_spec_iff}
use k8s_countermeasures.Reconciler.{ServicePort, find_named_port}
use k8s_countermeasures.Tests.Fixtures.{aggregates, cm}

validate_spec_iff_example : (validate_spec aggregates cm.spec ≡ none) ↔ IsAdmissible cm.spec
validate_spec_iff_example = validate_spec_iff aggregates cm.spec

abbrev web : ServicePort
web = record { name = codes "web"; port = pos 9090 }

abbrev ports : List ServicePort
ports = record { name = codes "grpc"; port = pos 10901 } ∷ web ∷ []

finds : find_named_port ports (codes "web") ≡ some web
unfolding find_named_port
finds = refl
