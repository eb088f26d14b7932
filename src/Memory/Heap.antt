-- ===== src/Memory/Heap.antt =====
-- The memory that the deep copies of both zz_generated.deepcopy.go work on: a heap, commands that may
-- fault, and the two forms that the generated code repeats, the copy behind a pointer and the copy of a
-- slice. `new` and the writes to the new object, which nothing else can see in between, are one
-- allocation of the finished object.
use k8s_countermeasures.Prelude.{
  ℕ, ◌+◌, ◌≡◌, List, [], ◌∷◌, Option, none, some, nat_beq, if◌then◌else◌,
}
use k8s_countermeasures.Memory.Objects.{Cell, Pointer, Slice}

-- A type of objects that stand at an address.
pub record Storable (X : Type 0) : Type 0 where
  pub to_cell : X → Cell
  pub of_cell : Cell → Option X
  pub of_cell-to_cell : (x : X) → of_cell (to_cell x) ≡ some x

-- What stands at each address; nothing was allocated from `free` on.
pub record Heap : Type 0 where
  pub cell : ℕ → Option Cell
  pub free : ℕ

-- The object is put at the first free address.
abbrev pub extended : Heap → Cell → Heap
extended h c = record {
  cell = λ a. if nat_beq a h.free then some c else h.cell a;
  free = h.free + 1;
}

-- A piece of the generated code, which ends in a fault where it follows a pointer to nothing.
abbrev pub Command : Type 0 → Type 0
Command X = Heap → Option (X × Heap)

abbrev pub continue : {X Y : Type 0} → (X → Command Y) → Option (X × Heap) → Option (Y × Heap)
continue k none = none
continue k (some (x, h)) = k x h

infixl 5 ◌>>=◌
abbrev pub ◌>>=◌ : {X Y : Type 0} → Command X → (X → Command Y) → Command Y
m >>= k = λ h. continue k (m h)

abbrev pub pure : {X : Type 0} → X → Command X
pure x = λ h. some (x, h)

module _ {X : Type 0} ⦃s : Storable X⦄ where
  abbrev pub typed : Option Cell → Option X
  typed none = none
  typed (some c) = s.of_cell c

  -- `*p`.
  unfoldable pub load : ℕ → Command X
  load p h = elim (typed (h.cell p)) [ none ↦ none | some x ↦ some (x, h) ]

  unfoldable pub new : X → Command ℕ
  new x h = some (h.free, extended h (s.to_cell x))

  -- A nil pointer stays nil. Otherwise `*out = new(X)`, and `copy` fills it from `*in`.
  unfoldable pub copy_pointer : (X → Command X) → Pointer → Command Pointer
  unfolding load new
  copy_pointer copy none = pure none
  copy_pointer copy (some p) = do x ← load p; y ← copy x; q ← new y; pure (some q)

-- `for i := range *in { (*in)[i].DeepCopyInto(&(*out)[i]) }`.
unfoldable pub copy_elements : {X : Type 0} → (X → Command X) → List X → Command (List X)
copy_elements copy [] = pure []
copy_elements copy (x ∷ xs) = do y ← copy x; ys ← copy_elements copy xs; pure (y ∷ ys)

-- A nil slice stays nil. Otherwise `*out = make([]X, len(*in))`, and the elements are copied.
unfoldable pub copy_slice :
    {X : Type 0} → ⦃s : Storable (List X)⦄ → (X → Command X) → Slice → Command Slice
unfolding copy_pointer copy_elements
copy_slice copy = copy_pointer (copy_elements copy)
