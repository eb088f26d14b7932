-- ===== src/EventBus/Matcher/Topics.antt =====
-- What `SubscriberMatch` finds, said without splitting and joining: the subscribers of the topic,
-- then those of each text that ends before one of its colons, the longest first.
use mathlib.Core.List.{reverse, reverse-append, append-nil, map-append, append_assoc}
use k8s_countermeasures.Prelude.{
  Text, text_eq, split, join, init, contains, length, is_empty, nat_beq, if◌then◌else◌, Bool-cases,
  ltb, ℕ, zero, suc, List, [], ◌∷◌, ◌++◌, map, true, false, not, ◌≡◌, ◌≢◌, text_beq_iff, refl, sym,
  ap, ◌∙◌, inl, inr, ◌<◌, ◌+◌, arith,
}
use k8s_countermeasures.Prelude.Parts.{
  last, length-split_pos, join-split, join-init-last, split-AllPlain, last-plain,
  length-split-plain, plain_of_length-split,
}
use k8s_countermeasures.Manager.{NamespacedName}
use k8s_countermeasures.Events.{create_fully_qualified_topic_name}
use k8s_countermeasures.EventBus.Matcher.{
  Subscribers, colon, exact, append_if, found, subscriber_match_fuel, subscriber_match,
}

-- The texts that end before a colon of the topic, the shortest first.
abbrev pub cuts : Text → List Text
cuts [] = []
cuts (c ∷ s) = let rest = map (λ t. c ∷ t) (cuts s) in if nat_beq c colon then [] ∷ rest else rest

-- The topic and all that it is nested in, the longest first.
abbrev pub enclosing : Text → List Text
enclosing topic = topic ∷ reverse (cuts topic)

abbrev pub subscribed : Subscribers → List Text → List ℕ
subscribed subs [] = []
subscribed subs (t ∷ ts) = exact subs t ++ subscribed subs ts

cuts_plain : (s : Text) → contains colon s ≡ false → cuts s ≡ []
unfolding contains
cuts_plain [] h = refl
cuts_plain (c ∷ s) h = ground (arith, cuts_plain s)

cuts-append : (p w : Text) → contains colon w ≡ false → cuts (p ++ colon ∷ w) ≡ cuts p ++ p ∷ []
cuts-append [] w h = rw (cuts_plain w h)
cuts-append (c ∷ p) w h =
    ground (arith, cuts-append p w h, map-append (λ (t : Text). c ∷ t) (cuts p) (p ∷ []))

-- A topic with several parts is the topic above it, a colon, and a last part with no colon.
parent_cut :
    (topic : Text)
    → 1 < length (split colon topic)
    → (w : Text) × (contains colon w ≡ false)
      × (topic ≡ join colon (init (split colon topic)) ++ colon ∷ w)
parent_cut topic h = (
  last (split colon topic),
  last-plain colon (split colon topic) (split-AllPlain colon topic),
  sym (join-init-last colon (split colon topic) h ∙ join-split colon topic),
)

append_if-found : (chs r : List ℕ) → append_if chs (found r) ≡ chs ++ r
unfolding append_if found
append_if-found chs [] = sym (append-nil chs)
append_if-found chs (c ∷ r) = refl

enclosing-parent :
    (p w : Text)
    → contains colon w ≡ false
    → enclosing (p ++ colon ∷ w) ≡ (p ++ colon ∷ w) ∷ enclosing p
enclosing-parent p w h = rw (cuts-append p w h, reverse-append (cuts p) (p ∷ []))

abbrev parent : Text → Text
parent topic = join colon (init (split colon topic))

subscribed-parent :
    (subs : Subscribers) (topic : Text)
    → 1 < length (split colon topic)
    → subscribed subs (enclosing topic)
      ≡ exact subs topic ++ subscribed subs (enclosing (parent topic))
subscribed-parent subs topic h =
    let (w, plain, e) = parent_cut topic h in
    ap (subscribed subs) (ap enclosing e ∙ enclosing-parent (parent topic) w plain)
    ∙ ap (λ t. exact subs t ++ subscribed subs (enclosing (parent topic))) (sym e)

length-parent :
    (topic : Text)
    → 1 < length (split colon topic)
    → length (split colon topic) ≡ length (split colon (parent topic)) + 1
length-parent topic h =
    let (w, plain, e) = parent_cut topic h in
    ap (λ t. length (split colon t)) e ∙ length-split-plain colon (parent topic) w plain

enclosing_flat : (topic : Text) → length (split colon topic) ≡ 1 → enclosing topic ≡ topic ∷ []
enclosing_flat topic h = rw (cuts_plain topic (plain_of_length-split colon topic h))

fuel_nested :
    (n : ℕ) (subs : Subscribers) (topic : Text)
    → ltb 1 (length (split colon topic)) ≡ true
    → subscriber_match_fuel (suc n) subs topic
      ≡ found (append_if (exact subs topic) (subscriber_match_fuel n subs (parent topic)))
unfolding subscriber_match_fuel
fuel_nested n subs topic h = rw h

fuel_flat :
    (n : ℕ) (subs : Subscribers) (topic : Text)
    → ltb 1 (length (split colon topic)) ≡ false
    → subscriber_match_fuel (suc n) subs topic ≡ found (exact subs topic)
unfolding subscriber_match_fuel
fuel_flat n subs topic h = rw h

fuel_lem :
    (n : ℕ) (subs : Subscribers) (topic : Text)
    → length (split colon topic) ≡ n
    → subscriber_match_fuel n subs topic ≡ found (subscribed subs (enclosing topic))
fuel_lem zero subs topic h = absurd (omega (arith, length-split_pos colon topic))
fuel_lem (suc n) subs topic h = elim (Bool-cases (ltb 1 (length (split colon topic)))) [
  | inl nested ↦
      let several : 1 < length (split colon topic) = ground arith in
      let ih = fuel_lem n subs (parent topic) (omega (arith, length-parent topic several)) in
      fuel_nested n subs topic nested
      ∙ ap (λ r. found (append_if (exact subs topic) r)) ih
      ∙ ap found (
          append_if-found (exact subs topic) (subscribed subs (enclosing (parent topic)))
          ∙ sym (subscribed-parent subs topic several))
  | inr flat ↦
      let single : length (split colon topic) ≡ 1 = ground (arith, length-split_pos colon topic) in
      fuel_flat n subs topic flat
      ∙ ap found (
          sym (append-nil (exact subs topic))
          ∙ ap (subscribed subs) (sym (enclosing_flat topic single)))
]

-- `SubscriberMatch` returns, for every topic, the subscribers of the topic and then those of each
-- text that ends before one of its colons, the longest first, and whether there are any.
pub subscriber_match_lem :
    (subs : Subscribers) (topic : Text)
    → subscriber_match subs topic
      ≡ (subscribed subs (enclosing topic), not (is_empty (subscribed subs (enclosing topic))))
unfolding subscriber_match found
subscriber_match_lem subs topic = fuel_lem _ subs topic refl

qualified_name :
    (topic : Text) (source : NamespacedName)
    → source.name ≢ []
    → create_fully_qualified_topic_name topic source
      ≡ topic ++ colon ∷ source.namespace ++ colon ∷ source.name
unfolding create_fully_qualified_topic_name
qualified_name topic source ne = ground (
  arith,
  append_assoc topic (colon ∷ source.namespace) (colon ∷ source.name),
  text_beq_iff source.name [],
)

pub enclosing-fully_qualified :
    (topic : Text) (source : NamespacedName)
    → contains colon topic ≡ false
    → contains colon source.namespace ≡ false
    → contains colon source.name ≡ false
    → source.name ≢ []
    → enclosing (create_fully_qualified_topic_name topic source)
      ≡ (topic ++ colon ∷ source.namespace ++ colon ∷ source.name)
        ∷ (topic ++ colon ∷ source.namespace)
        ∷ topic
        ∷ []
enclosing-fully_qualified topic source ht hs hn ne =
    ap enclosing (qualified_name topic source ne)
    ∙ enclosing-parent (topic ++ colon ∷ source.namespace) source.name hn
    ∙ ap (λ ts. (topic ++ colon ∷ source.namespace ++ colon ∷ source.name) ∷ ts)
        (enclosing-parent topic source.namespace hs
          ∙ ap (λ ts. (topic ++ colon ∷ source.namespace) ∷ topic ∷ reverse ts)
              (cuts_plain topic ht))

-- An event of a Prometheus source, published under its fully qualified name, reaches the
-- subscribers of that name, those of the alert in the source's namespace, and those of the alert
-- in every source; the alert's name and the source's hold no colon, and the source has a name.
pub subscriber_match-fully_qualified :
    (subs : Subscribers) (topic : Text) (source : NamespacedName)
    → contains colon topic ≡ false
    → contains colon source.namespace ≡ false
    → contains colon source.name ≡ false
    → source.name ≢ []
    → (subscriber_match subs (create_fully_qualified_topic_name topic source)).0
      ≡ exact subs (topic ++ colon ∷ source.namespace ++ colon ∷ source.name)
        ++ (exact subs (topic ++ colon ∷ source.namespace) ++ exact subs topic)
subscriber_match-fully_qualified subs topic source ht hs hn ne =
    ap (λ r. r.0) (subscriber_match_lem subs _)
    ∙ ap (subscribed subs) (enclosing-fully_qualified topic source ht hs hn ne)
    ∙ ap
        (λ r.
          exact subs (topic ++ colon ∷ source.namespace ++ colon ∷ source.name)
          ++ (exact subs (topic ++ colon ∷ source.namespace) ++ r))
        (append-nil (exact subs topic))
