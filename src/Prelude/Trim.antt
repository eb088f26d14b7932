-- ===== src/Prelude/Trim.antt =====
-- `strings.TrimSpace` on a text of ASCII bytes.
use k8s_countermeasures.Prelude.Tests.{nat_beq, leb, if◌then◌else◌}
use k8s_countermeasures.Prelude.Texts.{Text, is_empty}
use Prim.Native.Nat.{ℕ}
use mathlib.Core.Path.{◌≡◌, refl, ap, ◌∙◌}
use mathlib.Core.Bool.{Bool, true, ◌&&◌, ◌||◌}
use mathlib.Core.List.{[], ◌∷◌, ◌++◌}
use native.Mathlib.Omega.{arith}

-- The space, and the codes from the tab to the carriage return.
abbrev pub is_space : ℕ → Bool
is_space c = nat_beq c 32 || (leb 9 c && leb c 13)

unfoldable pub trim_left : Text → Text
trim_left [] = []
trim_left (c ∷ s) = if is_space c then trim_left s else c ∷ s

unfoldable pub trim_right : Text → Text
trim_right [] = []
trim_right (c ∷ s) = let r = trim_right s in if is_space c && is_empty r then [] else c ∷ r

unfoldable pub trim_space : Text → Text
unfolding trim_left trim_right
trim_space s = trim_right (trim_left s)

abbrev pub AllSpace : Text → Type 0
AllSpace [] = Unit {0}
AllSpace (c ∷ s) = (is_space c ≡ true) × AllSpace s

trim_left-spaces : (a s : Text) → AllSpace a → trim_left (a ++ s) ≡ trim_left s
unfolding trim_left
trim_left-spaces [] s h = refl
trim_left-spaces (c ∷ a) s h = rw h.0 (trim_left-spaces a s h.1)

trim_right_all : (b : Text) → AllSpace b → trim_right b ≡ []
unfolding trim_right
trim_right_all [] h = refl
trim_right_all (c ∷ b) h = ground (arith, h.0, trim_right_all b h.1)

trim_right-spaces : (s b : Text) → AllSpace b → trim_right (s ++ b) ≡ trim_right s
unfolding trim_right
trim_right-spaces [] b h = trim_right_all b h
trim_right-spaces (c ∷ s) b h = ground (arith, trim_right-spaces s b h)

trim_left_all : (b : Text) → AllSpace b → trim_left b ≡ []
unfolding trim_left
trim_left_all [] h = refl
trim_left_all (c ∷ b) h = rw h.0 (trim_left_all b h.1)

trim_both : (s b : Text) → AllSpace b → trim_right (trim_left (s ++ b)) ≡ trim_right (trim_left s)
unfolding trim_left
trim_both [] b h = ap trim_right (trim_left_all b h)
trim_both (c ∷ s) b h = ground (arith, trim_both s b h, trim_right-spaces (c ∷ s) b h)

-- Spaces around a text are trimmed with those of its own.
pub trim_space-padded :
    (a s b : Text) → AllSpace a → AllSpace b → trim_space (a ++ (s ++ b)) ≡ trim_space s
unfolding trim_space
trim_space-padded a s b h k = ap trim_right (trim_left-spaces a (s ++ b) h) ∙ trim_both s b k
