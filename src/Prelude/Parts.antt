-- ===== src/Prelude/Parts.antt =====
-- Laws of `strings.Split` and `strings.Join` at a separator of one byte.
use mathlib.Core.List.{append_assoc}
use k8s_countermeasures.Prelude.Tests.{nat_beq, nat_beq_iff, if◌then◌else◌}
use k8s_countermeasures.Prelude.Texts.{Text, contains, split, join, init, push_first, length}
use Prim.Native.Nat.{ℕ, ◌+◌, ◌<◌}
use mathlib.Core.Path.{◌≡◌, refl, ap, ◌∙◌}
use mathlib.Core.Bool.{true, false}
use mathlib.Core.List.{List, [], ◌∷◌, ◌++◌}
use native.Mathlib.Omega.{arith}

length-push_first : (c : ℕ) (ws : List Text) → 0 < length ws → length (push_first c ws) ≡ length ws
length-push_first c [] h = absurd (omega arith)
length-push_first c (w ∷ ws) h = refl

pub length-split_pos : (sep : ℕ) (s : Text) → 0 < length (split sep s)
unfolding split
length-split_pos sep [] = omega arith
length-split_pos sep (c ∷ s) =
    ground (arith, length-push_first c (split sep s), length-split_pos sep s)

-- A text splits into one part more than it has separators before the last part.
pub length-split-append :
    (sep : ℕ) (p s : Text)
    → length (split sep (p ++ sep ∷ s)) ≡ length (split sep p) + length (split sep s)
unfolding split
length-split-append sep [] s = ground arith
length-split-append sep (c ∷ p) s = ground (
  arith,
  length-split-append sep p s,
  length-push_first c (split sep p),
  length-push_first c (split sep (p ++ sep ∷ s)),
  length-split_pos sep p,
  length-split_pos sep (p ++ sep ∷ s),
)

pub split_plain : (sep : ℕ) (s : Text) → contains sep s ≡ false → split sep s ≡ s ∷ []
unfolding split contains
split_plain sep [] h = refl
split_plain sep (c ∷ s) h = ground (arith, split_plain sep s)

push_first-join :
    (sep c : ℕ) (ws : List Text) → 0 < length ws → join sep (push_first c ws) ≡ c ∷ join sep ws
unfolding join
push_first-join sep c [] h = absurd (omega arith)
push_first-join sep c (w ∷ []) h = refl
push_first-join sep c (w ∷ v ∷ ws) h = refl

join-cons_nil : (sep : ℕ) (ws : List Text) → 0 < length ws → join sep ([] ∷ ws) ≡ sep ∷ join sep ws
unfolding join
join-cons_nil sep [] h = absurd (omega arith)
join-cons_nil sep (w ∷ ws) h = refl

-- Joining the parts gives the text back.
pub join-split : (sep : ℕ) (s : Text) → join sep (split sep s) ≡ s
unfolding split
join-split sep [] = unfold join in refl
join-split sep (c ∷ s) = ground (
  arith,
  join-split sep s,
  push_first-join sep c (split sep s),
  join-cons_nil sep (split sep s),
  length-split_pos sep s,
)

-- The last part, of a list that is not empty.
abbrev pub last : List Text → Text
last [] = []
last (w ∷ []) = w
last (w ∷ v ∷ ws) = last (v ∷ ws)

pub join-init-last :
    (sep : ℕ) (ws : List Text) → 1 < length ws → join sep (init ws) ++ sep ∷ last ws ≡ join sep ws
unfolding join init
join-init-last sep [] h = absurd (omega arith)
join-init-last sep (w ∷ []) h = absurd (omega arith)
join-init-last sep (w ∷ v ∷ []) h = refl
join-init-last sep (w ∷ v ∷ u ∷ ws) h =
    rw append_assoc (ap (λ t. w ++ sep ∷ t) (join-init-last sep (v ∷ u ∷ ws) (omega arith)))

-- No part holds the separator.
abbrev pub AllPlain : ℕ → List Text → Type 0
AllPlain sep [] = Unit {0}
AllPlain sep (w ∷ ws) = (contains sep w ≡ false) × AllPlain sep ws

push_first-AllPlain :
    (sep c : ℕ) (ws : List Text)
    → nat_beq c sep ≡ false
    → AllPlain sep ws
    → AllPlain sep (push_first c ws)
unfolding contains
push_first-AllPlain sep c [] h a = ground arith
push_first-AllPlain sep c (w ∷ ws) h a = ground arith

plain_nil : (sep : ℕ) → contains sep [] ≡ false
unfolding contains
plain_nil sep = refl

pub split-AllPlain : (sep : ℕ) (s : Text) → AllPlain sep (split sep s)
unfolding split
split-AllPlain sep [] = unfold contains in (refl, tt)
split-AllPlain sep (c ∷ s) =
    ground (arith, split-AllPlain sep s, push_first-AllPlain sep c (split sep s), plain_nil sep)

pub last-plain : (sep : ℕ) (ws : List Text) → AllPlain sep ws → contains sep (last ws) ≡ false
last-plain sep [] a = unfold contains in refl
last-plain sep (w ∷ []) a = a.0
last-plain sep (w ∷ v ∷ ws) a = last-plain sep (v ∷ ws) a.1

join-plain :
    (sep : ℕ) (ws : List Text)
    → length ws ≡ 1
    → AllPlain sep ws
    → contains sep (join sep ws) ≡ false
unfolding join
join-plain sep [] h a = absurd (omega arith)
join-plain sep (w ∷ []) h a = a.0
join-plain sep (w ∷ v ∷ ws) h a = absurd (omega arith)

-- A text of one part holds no separator.
pub plain_of_length-split : (sep : ℕ) (s : Text) → length (split sep s) ≡ 1 → contains sep s ≡ false
plain_of_length-split sep s h =
    rw (join-split sep s) at (join-plain sep (split sep s) h (split-AllPlain sep s))

-- A text that ends before a part with no separator has one part less.
pub length-split-plain :
    (sep : ℕ) (p w : Text)
    → contains sep w ≡ false
    → length (split sep (p ++ sep ∷ w)) ≡ length (split sep p) + 1
length-split-plain sep p w h =
    omega (arith, length-split-append sep p w, ap (length {A = Text}) (split_plain sep w h))

pub split-plain_first :
    (sep : ℕ) (w s : Text) → contains sep w ≡ false → split sep (w ++ sep ∷ s) ≡ w ∷ split sep s
unfolding split contains
split-plain_first sep [] s h = ground (arith, nat_beq_iff sep sep)
split-plain_first sep (c ∷ w) s h = ground (arith, split-plain_first sep w s)

pub contains-append :
    (sep : ℕ) (s t : Text)
    → contains sep (s ++ t) ≡ (if contains sep s then true else contains sep t)
unfolding contains
contains-append sep [] t = refl
contains-append sep (c ∷ s) t = ground (arith, contains-append sep s t)

pub join_more :
    (sep : ℕ) (w v : Text) (ws : List Text) → join sep (w ∷ v ∷ ws) ≡ w ++ sep ∷ join sep (v ∷ ws)
unfolding join
join_more sep w v ws = refl

-- Parts with no separator are what the text that joins them splits into.
pub split-join :
    (sep : ℕ) (w : Text) (ws : List Text)
    → AllPlain sep (w ∷ ws)
    → split sep (join sep (w ∷ ws)) ≡ w ∷ ws
split-join sep w [] h = unfold join in split_plain sep w h.0
split-join sep w (v ∷ ws) h =
    ap (split sep) (join_more sep w v ws)
    ∙ split-plain_first sep w (join sep (v ∷ ws)) h.0
    ∙ ap (λ l. w ∷ l) (split-join sep v ws h.1)
