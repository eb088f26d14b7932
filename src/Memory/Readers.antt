-- ===== src/Memory/Readers.antt =====
-- What an object in memory stands for: the value that is found by following its pointers, or none if
-- one of them dangles. A nil slice and an empty one stand for the same list.
use k8s_countermeasures.Prelude.{List, [], ◌∷◌, Option, none, some, ℕ, if◌then◌else◌, ltb}
use k8s_countermeasures.Memory.Objects.{Cell, Pointer, Slice}
use k8s_countermeasures.Memory.Heap.{Heap, Storable, typed}

abbrev pub Reader : Type 0 → Type 0
Reader V = Heap → Option V

abbrev pub give : {V : Type 0} → V → Reader V
give v h = some v

infixl 5 ◌>>=◌
abbrev pub ◌>>=◌ : {V W : Type 0} → Reader V → (V → Reader W) → Reader W
◌>>=◌ r f h = elim (r h) [ none ↦ none | some v ↦ f v h ]

-- The object at an address.
unfoldable pub object_at : {X : Type 0} → ⦃s : Storable X⦄ → ℕ → Reader X
object_at p h = typed (h.cell p)

unfoldable pub read_pointer :
    {X V : Type 0} → ⦃s : Storable X⦄ → (X → Reader V) → Pointer → Reader (Option V)
read_pointer read none = give none
read_pointer {X} read (some p) = do x ← object_at {X = X} p; v ← read x; give (some v)

unfoldable pub read_elements : {X V : Type 0} → (X → Reader V) → List X → Reader (List V)
read_elements read [] = give []
read_elements read (x ∷ xs) = do v ← read x; vs ← read_elements read xs; give (v ∷ vs)

abbrev pub items : {V : Type 0} → Option (List V) → List V
items none = []
items (some vs) = vs

unfoldable pub read_slice :
    {X V : Type 0} → ⦃s : Storable (List X)⦄ → (X → Reader V) → Slice → Reader (List V)
unfolding read_pointer read_elements
read_slice read p = do vs ← read_pointer (read_elements read) p; give (items vs)

-- The heap with other contents below an address, or from it on.
abbrev pub with_old : ℕ → (ℕ → Option Cell) → Heap → Heap
with_old n w h = record h { cell = λ a. if ltb a n then w a else h.cell a }

abbrev pub with_new : ℕ → (ℕ → Option Cell) → Heap → Heap
with_new n w h = record h { cell = λ a. if ltb a n then h.cell a else w a }
