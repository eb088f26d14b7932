-- ===== src/Memory/Separation.antt =====
-- When a copy is separate: it stands for what the original does, and refers to memory that the
-- original does not reach. The laws that carry this from the fields to a struct.
pub mod Forms
use k8s_countermeasures.Prelude.{
  ℕ, ◌+◌, ◌≤◌, ◌≡◌, refl, sym, ap, ◌∙◌, List, [], ◌∷◌, Option, none, some, Option-cases, inl, inr,
  if◌then◌else◌, ltb, arith, nat_beq, some_inj,
}
use k8s_countermeasures.Memory.Objects.{Cell, Pointer, Slice}
use k8s_countermeasures.Memory.Heap.{
  Heap, Command, pure, ◌>>=◌, Storable, typed, load, new, extended, copy_pointer, copy_elements,
  copy_slice,
}
use k8s_countermeasures.Memory.Readers.{
  Reader, ◌>>=◌ as bind, object_at, read_pointer, read_elements, read_slice, with_old, with_new,
  give,
}

-- What is found in one heap is found in the other.
abbrev pub Extends : Heap → Heap → Type 0
Extends g h = (p : ℕ) (c : Cell) → g.cell p ≡ some c → h.cell p ≡ some c

-- Nothing stands at the free addresses.
abbrev pub IsFresh : Heap → Type 0
IsFresh h = (p : ℕ) → h.free ≤ p → h.cell p ≡ none

-- The heap without what stands below an address.
abbrev pub since : ℕ → Heap → Heap
since n = with_old n (λ _. none)

pub Extends-since : (n : ℕ) (g h : Heap) → Extends g h → Extends (since n g) (since n h)
Extends-since n g h e p c found = ground (arith, e p c)

-- The command succeeds and changes nothing that was there, and of what it makes `Q` holds in the
-- memory from `n` on.
pub record Makes {X : Type 0} (n : ℕ) (m : Command X) (h : Heap) (Q : X → Heap → Type 0)
    : Type 0 where
  pub result : X
  pub heap : Heap
  pub runs : m h ≡ some (result, heap)
  pub extends : Extends h heap
  pub grows : h.free ≤ heap.free
  pub fresh : IsFresh heap
  pub holds : Q result (since n heap)

pub record Copies {X V : Type 0} (read : X → Reader V) (copy : X → Command X) : Type 0 where
  pub monotone : (x : X) (g h : Heap) (v : V) → Extends g h → read x g ≡ some v → read x h ≡ some v
  pub copied :
      (x : X) (n : ℕ) (h : Heap) (v : V)
      → n ≤ h.free
      → IsFresh h
      → read x h ≡ some v
      → Makes n (copy x) h (λ y g. read y g ≡ some v)

pub Makes-pure :
    {X : Type 0} {Q : X → Heap → Type 0} (n : ℕ) (h : Heap) (y : X)
    → IsFresh h
    → Q y (since n h)
    → Makes n (pure y) h Q
Makes-pure n h y fresh q = record {
  result = y;
  heap = h;
  runs = refl;
  extends = λ p c e. e;
  grows = omega arith;
  fresh = fresh;
  holds = q;
}

pub >>=-run :
    {X Y : Type 0} (m : Command X) (f : X → Command Y) (h : Heap) {y : X} {h' : Heap}
    → m h ≡ some (y, h')
    → (m >>= f) h ≡ f y h'
>>=-run m f h e = rw (e, ◌>>=◌)

pub Makes->>= :
    {X Y : Type 0} {Q : X → Heap → Type 0} {P : Y → Heap → Type 0} (n : ℕ) (m : Command X)
    (f : X → Command Y) (h : Heap) (made : Makes n m h Q)
    → Makes n (f made.result) made.heap P
    → Makes n (m >>= f) h P
Makes->>= n m f h made next = record {
  result = next.result;
  heap = next.heap;
  runs = >>=-run m f h made.runs ∙ next.runs;
  extends = λ p c e. next.extends p c (made.extends p c e);
  grows = omega (arith, made.grows, next.grows);
  fresh = next.fresh;
  holds = next.holds;
}

-- Objects without pointers.
pub Copies-pure : {X : Type 0} → Copies {X = X} give pure
Copies-pure = record {
  monotone = λ x g h v e r. r;
  copied = λ x n h v le fresh r. Makes-pure n h x fresh r;
}

pub Extends-object_at :
    {X : Type 0} ⦃s : Storable X⦄ (g h : Heap) (p : ℕ) (x : X)
    → Extends g h
    → object_at {X = X} p g ≡ some x
    → object_at {X = X} p h ≡ some x
unfolding object_at
Extends-object_at g h p x e found = elim (Option-cases (g.cell p)) [
  | inl dangling ↦ absurd (let no = rw (dangling, typed) at found in cc)
  | inr (c, there) ↦ rw (e p c there, typed) (rw (there, typed) at found)
]

object_at_new :
    {X : Type 0} ⦃s : Storable X⦄ (n : ℕ) (h : Heap) (x : X)
    → n ≤ h.free
    → object_at {X = X} h.free (since n (extended h (s.to_cell x))) ≡ some x
unfolding object_at
object_at_new {X} ⦃s⦄ n h x le = ground (arith, s.of_cell-to_cell x)

pub Makes-new :
    {X : Type 0} ⦃s : Storable X⦄ (n : ℕ) (h : Heap) (x : X)
    → n ≤ h.free
    → IsFresh h
    → Makes n (new x) h (λ q g. (object_at {X = X} q g ≡ some x) × Extends (since n h) g)
unfolding new
Makes-new {X} ⦃s⦄ n h x le fresh =
    let e : Extends h (extended h (s.to_cell x)) = λ p c found. ground (arith, fresh p) in
    record {
      result = h.free;
      heap = extended h (s.to_cell x);
      runs = refl;
      extends = e;
      grows = omega arith;
      fresh = λ p free. ground (arith, fresh p);
      holds = (object_at_new n h x le, Extends-since n h (extended h (s.to_cell x)) e);
    }

pub load_found :
    {X : Type 0} ⦃s : Storable X⦄ (p : ℕ) (h : Heap) (x : X)
    → object_at {X = X} p h ≡ some x
    → load {X = X} p h ≡ some (x, h)
unfolding load object_at
load_found p h x found = rw (load, found) refl

-- The steps of a read that succeeds.
pub Reader-inv :
    {V W : Type 0} (r : Reader V) (f : V → Reader W) (h : Heap) (w : W)
    → bind r f h ≡ some w
    → (v : V) × (r h ≡ some v) × (f v h ≡ some w)
Reader-inv r f h w e = elim (Option-cases (r h)) [
  | inl fault ↦ absurd (let no = rw (fault, bind) at e in cc)
  | inr (v, found) ↦ (v, found, rw (found, bind) at e)
]
