-- ===== src/Prelude/Maps.antt =====
-- Go maps as association lists, with the laws of reading, writing and deleting.
use mathlib.Core.Path.{◌≡◌, refl}
use mathlib.Core.Bool.{Bool}
use mathlib.Core.Option.{Option, none, some}
use mathlib.Core.List.{List, [], ◌∷◌}
use native.Mathlib.Omega.{arith}
use k8s_countermeasures.Prelude.Tests.{if◌then◌else◌}
use k8s_countermeasures.Prelude.Equality.{Eq, ◌==◌, ==_iff, ==_refl}

abbrev pub Map {ℓ κ} : Type ℓ → Type κ → Type (ℓ ⊔ κ)
Map K V = List (K × V)

module _ {ℓ κ} {K : Type ℓ} {V : Type κ} where
  -- `for k := range m { if p(k) { delete(m, k) } }`
  unfoldable pub delete_where : (K → Bool) → Map K V → Map K V
  delete_where p [] = []
  delete_where p ((k, v) ∷ m) = let rest = delete_where p m in if p k then rest else (k, v) ∷ rest

module _ {ℓ κ} {K : Type ℓ} {V : Type κ} ⦃e : Eq K⦄ where
  -- `v, ok := m[k]`
  unfoldable pub lookup : K → Map K V → Option V
  lookup k [] = none
  lookup k ((j, v) ∷ m) = if j == k then some v else lookup k m

  -- `m[k] = v`
  unfoldable pub insert : K → V → Map K V → Map K V
  insert key value [] = (key, value) ∷ []
  insert key value ((held, old) ∷ rest) =
      let others = insert key value rest in
      if held == key then (key, value) ∷ rest else (held, old) ∷ others

  -- `delete(m, k)`
  unfoldable pub delete : K → Map K V → Map K V
  unfolding delete_where
  delete k m = delete_where (λ j. j == k) m

  pub lookup-insert :
      (k j : K) (v : V) (m : Map K V)
      → lookup j (insert k v m) ≡ (if k == j then some v else lookup j m)
  unfolding lookup insert
  lookup-insert key asked value [] = refl
  lookup-insert key asked value ((held, old) ∷ rest) =
      let others = lookup-insert key asked value rest in
      ground (arith, others, ==_iff held asked, ==_iff held key, ==_iff key asked)

  pub lookup-delete_where :
      (p : K → Bool) (j : K) (m : Map K V)
      → lookup j (delete_where p m) ≡ (if p j then none else lookup j m)
  unfolding lookup delete_where
  lookup-delete_where p j [] = ground arith
  lookup-delete_where p j ((i, w) ∷ m) = ground (arith, ==_iff i j, lookup-delete_where p j m)

  pub lookup-delete :
      (k j : K) (m : Map K V) → lookup j (delete k m) ≡ (if j == k then none else lookup j m)
  unfolding delete
  lookup-delete k j m = lookup-delete_where (λ i. i == k) j m

  -- No key stands twice: what every Go map satisfies.
  abbrev pub DistinctKeys : Map K V → Type κ
  DistinctKeys [] = Unit
  DistinctKeys ((k, v) ∷ m) = (lookup k m ≡ none) × DistinctKeys m

  pub insert-DistinctKeys :
      (k : K) (v : V) (m : Map K V) → DistinctKeys m → DistinctKeys (insert k v m)
  unfolding insert
  insert-DistinctKeys k v [] h = (unfold lookup in refl, tt)
  insert-DistinctKeys k v ((i, w) ∷ m) h =
      ground (arith, ==_iff i k, ==_iff k i, lookup-insert k i v m, insert-DistinctKeys k v m h.1)

  pub delete_where-DistinctKeys :
      (p : K → Bool) (m : Map K V) → DistinctKeys m → DistinctKeys (delete_where p m)
  unfolding delete_where
  delete_where-DistinctKeys p [] h = tt
  delete_where-DistinctKeys p ((i, w) ∷ m) h =
      ground (arith, lookup-delete_where p i m, delete_where-DistinctKeys p m h.1)

  pub lookup-insert_self : (k : K) (v : V) (m : Map K V) → lookup k (insert k v m) ≡ some v
  lookup-insert_self k v m = ground (arith, lookup-insert k k v m, ==_refl k)
