-- ===== src/Events.antt =====
-- pkg/events/events.go: events, their de-duplication key and the fully qualified topic name.
pub mod Hash
pub mod Sorting
pub mod Key
use Hash.{hash_text}
use Sorting.{sort_texts}
use k8s_countermeasures.Prelude.{
  Text, codes, Map, lookup, is_empty, ◌==◌, text_eq, if◌then◌else◌, Option, none, some, List, [],
  ◌∷◌, ◌++◌, map, Bool, true, ◌&&◌,
}
use k8s_countermeasures.Prelude.Int.{ℤ}
use k8s_countermeasures.Manager.{NamespacedName, namespaced_name_eq}

abbrev pub EventData : Type 0
EventData = Map Text Text

-- A missing key reads as the empty string.
unfoldable pub get : EventData → Text → Text
get d key = elim (lookup key d) [ none ↦ [] | some v ↦ v ]

-- `event_data` is the field `Data`, a pointer.
pub record Event : Type 0 where
  pub name : Text
  pub active_time : ℤ
  pub event_data : Option EventData

-- What the builder holds after `for _, k := range keys`.
unfoldable pub write_values : EventData → List Text → Text
write_values d [] = []
write_values d (k ∷ ks) = get d k ++ write_values d ks

unfoldable pub data_text : Option EventData → Text
data_text none = []
data_text (some d) = write_values d (sort_texts (map (λ e. e.0) d))

unfoldable pub no_data : Option EventData → Bool
no_data none = true
no_data (some d) = is_empty d

unfoldable pub key : Event → Text
key e =
    if no_data e.event_data && is_empty e.name
    then []
    else hash_text (e.name ++ data_text e.event_data)

unfoldable pub create_fully_qualified_topic_name : Text → NamespacedName → Text
create_fully_qualified_topic_name topic source =
    if source == record { namespace = []; name = [] }
    then topic
    else topic ++ (codes ":" ++ (source.namespace ++ (codes ":" ++ source.name)))
