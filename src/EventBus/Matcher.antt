-- ===== src/EventBus/Matcher.antt =====
-- pkg/eventbus/matcher.go: the subscribers of a topic and of every topic that it is nested in.
pub mod Topics
use k8s_countermeasures.Prelude.{
  Text, text_eq, Map, lookup, split, join, init, length, is_empty, if◌then◌else◌, ltb, ℕ, zero, suc,
  List, [], ◌∷◌, ◌++◌, Option, none, some, Bool, false, not,
}

-- A channel is known by its number; equal numbers are the same channel.
abbrev pub Subscribers : Type 0
Subscribers = Map Text (List ℕ)

abbrev pub colon : ℕ
colon = b':'

-- `chs = append(chs, r...)` for the exact match, and nothing for a topic with no entry.
unfoldable pub exact : Subscribers → Text → List ℕ
exact subs topic = elim (lookup topic subs) [ none ↦ [] | some r ↦ r ]

-- `if r, ok := ...; ok { chs = append(chs, r...) }`
unfoldable pub append_if : List ℕ → List ℕ × Bool → List ℕ
append_if chs (r, ok) = if ok then chs ++ r else chs

unfoldable pub found : List ℕ → List ℕ × Bool
found chs = (chs, not (is_empty chs))

-- The recursion of `SubscriberMatch` on the topic less its last part. The first argument bounds its
-- depth.
unfoldable pub subscriber_match_fuel : ℕ → Subscribers → Text → List ℕ × Bool
subscriber_match_fuel zero subs topic = ([], false)
subscriber_match_fuel (suc n) subs topic =
    let topic_slice = split colon topic in
    let r = subscriber_match_fuel n subs (join colon (init topic_slice)) in
    found (if ltb 1 (length topic_slice) then append_if (exact subs topic) r else exact subs topic)

-- A topic has as many levels as it has parts.
unfoldable pub subscriber_match : Subscribers → Text → List ℕ × Bool
unfolding subscriber_match_fuel exact append_if found
subscriber_match subs topic = subscriber_match_fuel (length (split colon topic)) subs topic
