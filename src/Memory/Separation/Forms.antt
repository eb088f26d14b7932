-- ===== src/Memory/Separation/Forms.antt =====
-- The deep copies of pointers, slices and structs are separate where those of their parts are.
use k8s_countermeasures.Prelude.{ℕ, ◌≤◌, ◌≡◌, sym, ◌∙◌, List, [], ◌∷◌, Option, none, some, arith}
use k8s_countermeasures.Memory.Objects.{Pointer}
use k8s_countermeasures.Memory.Heap.{
  Heap, Command, pure, ◌>>=◌, Storable, load, new, copy_pointer, copy_elements, copy_slice,
}
use k8s_countermeasures.Memory.Readers.{
  Reader, ◌>>=◌ as bind, object_at, read_pointer, read_elements, read_slice, items, give,
}
use k8s_countermeasures.Memory.Separation.{
  Extends, IsFresh, since, Extends-since, Makes, Copies, Makes-pure, >>=-run, load_found, Makes->>=,
  Extends-object_at, Makes-new, Reader-inv,
}

module _ {X V : Type 0} ⦃s : Storable X⦄ {read : X → Reader V} {copy : X → Command X}
    (laws : Copies read copy) where
  read_pointer-monotone :
      (p : Pointer) (g h : Heap) (v : Option V)
      → Extends g h
      → read_pointer read p g ≡ some v
      → read_pointer read p h ≡ some v
  unfolding read_pointer
  read_pointer-monotone none g h v e r = r
  read_pointer-monotone (some p) g h v e r =
      let (x, there, rest) =
        Reader-inv (object_at {X = X} p) (λ x. bind (read x) (λ w. give (some w))) g v r in
      let (w, found, last) = Reader-inv (read x) (λ w. give (some w)) g v rest in
      rw (bind, Extends-object_at g h p x e there, laws.monotone x g h w e found) last

  copy_pointer-Makes :
      (p : Pointer) (n : ℕ) (h : Heap) (v : Option V)
      → n ≤ h.free
      → IsFresh h
      → read_pointer read p h ≡ some v
      → Makes n (copy_pointer copy p) h (λ q g. read_pointer read q g ≡ some v)
  unfolding copy_pointer read_pointer
  copy_pointer-Makes none n h v le fresh r = Makes-pure n h none fresh r
  copy_pointer-Makes (some p) n h v le fresh r =
      let (x, there, rest) =
        Reader-inv (object_at {X = X} p) (λ x. bind (read x) (λ w. give (some w))) h v r in
      let (w, found, last) = Reader-inv (read x) (λ w. give (some w)) h v rest in
      let made = laws.copied x n h w le fresh found in
      let stored = Makes-new n made.heap made.result (omega (arith, made.grows)) made.fresh in
      record {
        result = some stored.result;
        heap = stored.heap;
        runs =
            >>=-run (load p) (λ x. copy x >>= λ y. new y >>= λ q. pure (some q)) h
              (load_found p h x there)
            ∙ >>=-run (copy x) (λ y. new y >>= λ q. pure (some q)) h made.runs
            ∙ >>=-run (new made.result) (λ q. pure (some q)) made.heap stored.runs;
        extends = λ a c e. stored.extends a c (made.extends a c e);
        grows = omega (arith, made.grows, stored.grows);
        fresh = stored.fresh;
        holds =
            rw
              (
                bind,
                stored.holds.0,
                laws.monotone made.result (since n made.heap) (since n stored.heap) w stored.holds.1
                    made.holds,
              )
              last;
      }

  pub Copies-pointer : Copies (read_pointer read) (copy_pointer copy)
  Copies-pointer = record { monotone = read_pointer-monotone; copied = copy_pointer-Makes }

module _ {X V : Type 0} {read : X → Reader V} {copy : X → Command X} (laws : Copies read copy) where
  read_elements-monotone :
      (xs : List X) (g h : Heap) (vs : List V)
      → Extends g h
      → read_elements read xs g ≡ some vs
      → read_elements read xs h ≡ some vs
  unfolding read_elements
  read_elements-monotone [] g h vs e r = r
  read_elements-monotone (x ∷ xs) g h vs e r =
      let (v, found, rest) =
        Reader-inv (read x) (λ v. bind (read_elements read xs) (λ ws. give (v ∷ ws))) g vs r in
      let (ws, others, last) = Reader-inv (read_elements read xs) (λ ws. give (v ∷ ws)) g vs rest in
      rw (bind, laws.monotone x g h v e found, read_elements-monotone xs g h ws e others) last

  copy_elements-Makes :
      (xs : List X) (n : ℕ) (h : Heap) (vs : List V)
      → n ≤ h.free
      → IsFresh h
      → read_elements read xs h ≡ some vs
      → Makes n (copy_elements copy xs) h (λ ys g. read_elements read ys g ≡ some vs)
  unfolding copy_elements read_elements
  copy_elements-Makes [] n h vs le fresh r = Makes-pure n h [] fresh r
  copy_elements-Makes (x ∷ xs) n h vs le fresh r =
      let (v, found, rest) =
        Reader-inv (read x) (λ v. bind (read_elements read xs) (λ ws. give (v ∷ ws))) h vs r in
      let (ws, others, last) = Reader-inv (read_elements read xs) (λ ws. give (v ∷ ws)) h vs rest in
      let one = laws.copied x n h v le fresh found in
      let more =
        copy_elements-Makes xs n one.heap ws (omega (arith, one.grows)) one.fresh
          (read_elements-monotone xs h one.heap ws one.extends others) in
      Makes->>= n (copy x) _ h one (
        Makes->>= n (copy_elements copy xs) _ one.heap more (
          Makes-pure n more.heap (one.result ∷ more.result) more.fresh (
            rw
              (
                bind,
                laws.monotone one.result (since n one.heap) (since n more.heap) v
                    (Extends-since n one.heap more.heap more.extends) one.holds,
                more.holds,
              )
              last)))

  Copies-elements : Copies (read_elements read) (copy_elements copy)
  Copies-elements = record { monotone = read_elements-monotone; copied = copy_elements-Makes }

-- A part of what an object stands for.
pub Copies-map :
    {X V W : Type 0} {read : X → Reader V} {copy : X → Command X} (f : V → W)
    → Copies read copy
    → Copies (λ x. bind (read x) (λ v. give (f v))) copy
Copies-map {read} {copy} f laws = record {
  monotone = λ x g h w e r.
      let (v, found, last) = Reader-inv (read x) (λ v. give (f v)) g w r in
      rw (bind, laws.monotone x g h v e found) last;
  copied = λ x n h w le fresh r.
      let (v, found, last) = Reader-inv (read x) (λ v. give (f v)) h w r in
      let made = laws.copied x n h v le fresh found in
      record {
        result = made.result;
        heap = made.heap;
        runs = made.runs;
        extends = made.extends;
        grows = made.grows;
        fresh = made.fresh;
        holds = rw (bind, made.holds) last;
      };
}

pub Copies-slice :
    {X V : Type 0} ⦃s : Storable (List X)⦄ {read : X → Reader V} {copy : X → Command X}
    → Copies read copy
    → Copies (read_slice read) (copy_slice copy)
unfolding read_slice copy_slice
Copies-slice laws = Copies-map items (Copies-pointer (Copies-elements laws))

-- Two parts, one after the other.
abbrev pub read_both : {X Y V W : Type 0} → (X → Reader V) → (Y → Reader W) → X × Y → Reader (V × W)
read_both first second (x, y) = bind (first x) (λ v. bind (second y) (λ w. give (v, w)))

abbrev pub copy_both : {X Y : Type 0} → (X → Command X) → (Y → Command Y) → X × Y → Command (X × Y)
copy_both first second (x, y) = do a ← first x; b ← second y; pure (a, b)

pub Copies-both :
    {X Y V W : Type 0} {first : X → Reader V} {copy_first : X → Command X} {second : Y → Reader W}
    {copy_second : Y → Command Y}
    → Copies first copy_first
    → Copies second copy_second
    → Copies (read_both first second) (copy_both copy_first copy_second)
Copies-both {first} {copy_first} {second} {copy_second} a b = record {
  monotone = λ p g h vw e r.
      let (v, found, rest) =
        Reader-inv (first p.0) (λ v. bind (second p.1) (λ w. give (v, w))) g vw r in
      let (w, other, last) = Reader-inv (second p.1) (λ w. give (v, w)) g vw rest in
      rw (bind, a.monotone p.0 g h v e found, b.monotone p.1 g h w e other) last;
  copied = λ p n h vw le fresh r.
      let (v, found, rest) =
        Reader-inv (first p.0) (λ v. bind (second p.1) (λ w. give (v, w))) h vw r in
      let (w, other, last) = Reader-inv (second p.1) (λ w. give (v, w)) h vw rest in
      let one = a.copied p.0 n h v le fresh found in
      let two =
        b.copied p.1 n one.heap w (omega (arith, one.grows)) one.fresh
          (b.monotone p.1 h one.heap w one.extends other) in
      Makes->>= n (copy_first p.0) _ h one (
        Makes->>= n (copy_second p.1) _ one.heap two (
          Makes-pure n two.heap (one.result, two.result) two.fresh
            (rw
              (
                bind,
                a.monotone one.result (since n one.heap) (since n two.heap) v
                    (Extends-since n one.heap two.heap two.extends) one.holds,
                two.holds,
              )
              last)));
}

-- A struct: its parts with pointers are `parts`, the rest is copied by the assignment.
pub Copies-record :
    {X T V W : Type 0} {read_parts : T → Reader W} {copy_parts : T → Command T}
    {read : X → Reader V} {copy : X → Command X} (parts : X → T) (with_parts : X → T → X)
    (build : X → W → V)
    → Copies read_parts copy_parts
    → ((x : X) (t : T) → parts (with_parts x t) ≡ t)
    → ((x : X) (t : T) (w : W) → build (with_parts x t) w ≡ build x w)
    → ((x : X) (h : Heap) → read x h ≡ bind (read_parts (parts x)) (λ w. give (build x w)) h)
    → ((x : X) (h : Heap) → copy x h ≡ (copy_parts (parts x) >>= λ t. pure (with_parts x t)) h)
    → Copies read copy
Copies-record {read_parts} {copy_parts} parts with_parts build laws set same reads runs = record {
  monotone = λ x g h v e r.
      let (w, found, last) =
        Reader-inv (read_parts (parts x)) (λ w. give (build x w)) g v (sym (reads x g) ∙ r) in
      reads x h ∙ rw (bind, laws.monotone (parts x) g h w e found) last;
  copied = λ x n h v le fresh r.
      let (w, found, last) =
        Reader-inv (read_parts (parts x)) (λ w. give (build x w)) h v (sym (reads x h) ∙ r) in
      let made = laws.copied (parts x) n h w le fresh found in
      record {
        result = with_parts x made.result;
        heap = made.heap;
        runs = runs x h ∙ >>=-run (copy_parts (parts x)) _ h made.runs;
        extends = made.extends;
        grows = made.grows;
        fresh = made.fresh;
        holds =
            reads (with_parts x made.result) (since n made.heap)
            ∙ rw (bind, set x made.result, made.holds, same x made.result w) last;
      };
}
