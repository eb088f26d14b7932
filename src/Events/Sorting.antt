-- ===== src/Events/Sorting.antt =====
-- `sort.Strings`: bytewise order, by insertion. The result does not depend on the input's order.
use mathlib.Core.List.{Permᴰ}
use k8s_countermeasures.Prelude.{
  Text, ◌≡◌, refl, Bool, true, false, List, [], ◌∷◌, ltb, nat_beq, if◌then◌else◌, arith, ap, ◌∙◌,
  map,
}

-- The order of Go's strings.
abbrev pub text_le : Text → Text → Bool
text_le [] ys = true
text_le (x ∷ xs) [] = false
text_le (x ∷ xs) (y ∷ ys) = if ltb x y then true else if nat_beq x y then text_le xs ys else false

unfoldable pub insert_text : Text → List Text → List Text
insert_text k [] = k ∷ []
insert_text k (j ∷ js) = if text_le k j then k ∷ j ∷ js else j ∷ insert_text k js

unfoldable pub sort_texts : List Text → List Text
unfolding insert_text
sort_texts [] = []
sort_texts (k ∷ ks) = insert_text k (sort_texts ks)

text_le_total : (a b : Text) → text_le a b ≡ false → text_le b a ≡ true
text_le_total [] [] h = refl
text_le_total [] (y ∷ b) h = ground arith
text_le_total (x ∷ a) [] h = refl
text_le_total (x ∷ a) (y ∷ b) h = ground (arith, text_le_total a b)

text_le_antisymm : (a b : Text) → text_le a b ≡ true → text_le b a ≡ true → a ≡ b
text_le_antisymm [] [] h k = refl
text_le_antisymm [] (y ∷ b) h k = ground arith
text_le_antisymm (x ∷ a) [] h k = ground arith
text_le_antisymm (x ∷ a) (y ∷ b) h k = ground (arith, text_le_antisymm a b)

text_le_trans : (a b c : Text) → text_le a b ≡ true → text_le b c ≡ true → text_le a c ≡ true
text_le_trans [] b c h k = refl
text_le_trans (x ∷ a) [] c h k = ground arith
text_le_trans (x ∷ a) (y ∷ b) [] h k = ground arith
text_le_trans (x ∷ a) (y ∷ b) (z ∷ c) h k = ground (arith, text_le_trans a b c)

-- Two insertions may be swapped.
insert_text_comm :
    (a b : Text) (l : List Text) → insert_text a (insert_text b l) ≡ insert_text b (insert_text a l)
unfolding insert_text
insert_text_comm a b [] = ground (arith, text_le_total a b, text_le_antisymm a b)
insert_text_comm a b (j ∷ l) = ground (
  arith,
  insert_text_comm a b l,
  text_le_total a b,
  text_le_total b a,
  text_le_antisymm a b,
  text_le_trans a b j,
  text_le_trans b a j,
  text_le_total a j,
  text_le_total b j,
  text_le_trans a j b,
  text_le_trans b j a,
)

pub sort_texts-perm : {a b : List Text} → Permᴰ a b → sort_texts a ≡ sort_texts b
unfolding sort_texts
sort_texts-perm Permᴰ.nil = refl
sort_texts-perm (Permᴰ.cons e p) = cc (sort_texts-perm p)
sort_texts-perm (Permᴰ.swap {a = a} {b = b} {l = l} e f) = cc (insert_text_comm a b (sort_texts l))
sort_texts-perm (Permᴰ.trans p q) = sort_texts-perm p ∙ sort_texts-perm q

pub map-perm {ℓ κ} :
    {A : Type ℓ} {B : Type κ} (f : A → B) {a b : List A} → Permᴰ a b → Permᴰ (map f a) (map f b)
map-perm f Permᴰ.nil = Permᴰ.nil
map-perm f (Permᴰ.cons e p) = Permᴰ.cons (ap f e) (map-perm f p)
map-perm f (Permᴰ.swap e e') = Permᴰ.swap (ap f e) (ap f e')
map-perm f (Permᴰ.trans p q) = Permᴰ.trans (map-perm f p) (map-perm f q)
