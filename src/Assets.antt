-- ===== src/Assets.antt =====
-- assets/assets.go: the patches that are embedded in the program.
use k8s_countermeasures.Prelude.{Text, codes, ◌++◌}
use k8s_countermeasures.Outcome.{Outcome, ok, ◌>>=◌, must}
use k8s_countermeasures.Actions.Cluster.{Cluster}

abbrev pub merge_patch_type : Text
merge_patch_type = codes "application/merge-patch+json"

-- Each error panics.
unfoldable pub get_patch : (c : Cluster) → Text → c.World → Outcome c.Patch
get_patch c name w = do
  tmpl ← must (c.parse_embedded (codes "manifests/" ++ name))
  text ← must (c.execute_now tmpl w)
  json ← must (c.yaml_to_json text)
  ok (c.raw_patch merge_patch_type json)
