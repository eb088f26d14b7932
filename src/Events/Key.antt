-- ===== src/Events/Key.antt =====
-- `Event.Key`: it does not depend on the order in which Go walks the map, and what it forgets.
use mathlib.Core.List.{Perm, Permᴰ, append-nil, append_assoc}
use mathlib.Core.Logic.{∥∥₁_elim}
use k8s_countermeasures.Prelude.{
  Text, lookup, DistinctKeys, is_empty, ==_iff, ==_refl, ==_of_ne, text_eq, some, List, [], ◌∷◌,
  ◌++◌, map, true, false, ◌≡◌, ◌≢◌, ◌⊎◌, inl, inr, refl, ap, ◌∙◌, arith, length,
}
use k8s_countermeasures.Events.{Event, EventData, get, key, write_values, data_text, no_data}
use k8s_countermeasures.Events.Hash.{length-hash_text}
use k8s_countermeasures.Events.Sorting.{sort_texts, sort_texts-perm, map-perm, text_le, insert_text}

Text-set : IsSet Text
Text-set = hlevel

abbrev keys : EventData → List Text
keys = map (λ e. e.0)

lookup-perm :
    {d d' : EventData}
    → Permᴰ d d'
    → DistinctKeys d
    → ((k : Text) → lookup k d ≡ lookup k d') × DistinctKeys d'
unfolding lookup
lookup-perm Permᴰ.nil h = (λ k. refl, tt)
lookup-perm (Permᴰ.cons {a = a} {b = b} e p) h =
    let ih = lookup-perm p h.1 in (λ k. ground (arith, ih.0 k), ground (arith, ih.0 a.0))
lookup-perm (Permᴰ.swap {a = a} {b = b} e f) h = (
  λ k. ground (arith, ==_iff a.0 b.0, ==_iff b.0 a.0, ==_iff a.0 k, ==_iff b.0 k),
  ground (arith, ==_iff a.0 b.0, ==_iff b.0 a.0),
)
lookup-perm (Permᴰ.trans p q) h =
    let ih = lookup-perm p h in let ih' = lookup-perm q ih.1 in (λ k. ih.0 k ∙ ih'.0 k, ih'.1)

is_empty-perm : {d d' : EventData} → Permᴰ d d' → is_empty d ≡ is_empty d'
is_empty-perm Permᴰ.nil = refl
is_empty-perm (Permᴰ.cons e p) = refl
is_empty-perm (Permᴰ.swap e f) = refl
is_empty-perm (Permᴰ.trans p q) = is_empty-perm p ∙ is_empty-perm q

write_values-ext :
    (d d' : EventData)
    → ((k : Text) → lookup k d ≡ lookup k d')
    → (ks : List Text) → write_values d ks ≡ write_values d' ks
unfolding write_values get
write_values-ext d d' h [] = refl
write_values-ext d d' h (k ∷ ks) = ground (arith, h k, write_values-ext d d' h ks)

data_text-perm :
    {d d' : EventData} → Permᴰ d d' → DistinctKeys d → data_text (some d) ≡ data_text (some d')
unfolding data_text
data_text-perm {d} {d'} p h =
    write_values-ext d d' (lookup-perm p h).0 (sort_texts (keys d))
    ∙ ap (write_values d') (sort_texts-perm (map-perm (λ e. e.0) p))

abbrev pub with_data : Event → EventData → Event
with_data e d = record e { event_data = some d }

-- The key of an event is the same in whatever order the entries of its data are walked, provided
-- that no label stands twice among them.
pub key-perm :
    (e : Event) (d d' : EventData)
    → DistinctKeys d
    → Perm d d'
    → key (with_data e d) ≡ key (with_data e d')
unfolding key no_data
key-perm e d d' h p = ∥∥₁_elim p (Text-set _ _) λ q. cc (is_empty-perm q, data_text-perm q h)

is_empty_cases : (s : Text) → ((is_empty s ≡ true) × (s ≡ [])) ⊎ ((is_empty s ≡ false) × (s ≢ []))
is_empty_cases [] = inl (refl, refl)
is_empty_cases (c ∷ s) = inr (refl, λ e. cc)

-- The key is empty exactly when the event has neither a name nor any data; all others have the
-- eight hexadecimal digits of a 32-bit hash.
pub key_shape :
    (e : Event)
    → ((key e ≡ []) × (e.name ≡ []) × (no_data e.event_data ≡ true))
      ⊎ ((length (key e) ≡ 8) × ((e.name ≢ []) ⊎ (no_data e.event_data ≡ false)))
unfolding key
key_shape e =
    ground (arith, length-hash_text (e.name ++ data_text e.event_data), is_empty_cases e.name)

data_text_two :
    (k l u v : Text) → k ≢ l → text_le k l ≡ true → data_text (some ((k, u) ∷ (l, v) ∷ [])) ≡ u ++ v
unfolding data_text sort_texts insert_text write_values get lookup
data_text_two k l u v h le =
    rw le (ground (arith, ==_refl k, ==_refl l, ==_of_ne k l h, append-nil v))

-- The keys do not tell apart events whose values only concatenate alike: for any two labels, moving
-- the tail of the first value to the front of the second leaves the key as it was.
pub key_collision :
    (e : Event) (k l : Text) (a b c : Text)
    → k ≢ l
    → text_le k l ≡ true
    → key (with_data e ((k, a ++ b) ∷ (l, c) ∷ [])) ≡ key (with_data e ((k, a) ∷ (l, b ++ c) ∷ []))
unfolding key no_data
key_collision e k l a b c h le =
    cc (data_text_two k l (a ++ b) c h le, data_text_two k l a (b ++ c) h le, append_assoc a b c)

-- What a label reads as does not depend on the order either.
pub get-perm : (d d' : EventData) (k : Text) → DistinctKeys d → Perm d d' → get d k ≡ get d' k
unfolding get
get-perm d d' k h p = ∥∥₁_elim p (Text-set _ _) λ q. ground (arith, (lookup-perm q h).0 k)

-- The key is made of the name and the data alone.
pub key_parts : (e e' : Event) → e.name ≡ e'.name → e.event_data ≡ e'.event_data → key e ≡ key e'
unfolding key
key_parts e e' n d = cc
