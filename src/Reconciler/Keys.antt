-- ===== src/Reconciler/Keys.antt =====
-- Keys that are printed are read back, and the port that is found.
use k8s_countermeasures.Prelude.{
  Text, text_eq, codes, contains, nat_eq, some, List, [], ◌∷◌, ◌++◌, true, false, ◌≡◌, ◌⊎◌, inl,
  inr, refl, arith, text_beq_iff,
}
use k8s_countermeasures.Prelude.Parts.{split_plain, split-plain_first}
use k8s_countermeasures.Prelude.Int.{ℤ}
use k8s_countermeasures.Reconciler.{
  slash, to_key, split_key, split_parts, to_namespace_name, ServicePort, find_named_port,
  find_by_name, first_port,
}

contains-slash : (s t : Text) → contains slash (s ++ slash ∷ t) ≡ true
unfolding contains
contains-slash [] t = refl
contains-slash (c ∷ s) t = ground (arith, contains-slash s t)

key_of_parts :
    (ns name : Text)
    → contains slash ns ≡ false
    → contains slash name ≡ false
    → split_key (ns ++ (codes "/" ++ name)) ≡ some (record { namespace = ns; name = name })
unfolding split_key split_parts
key_of_parts ns name hs hn =
    ground
      (arith, contains-slash ns name, split-plain_first slash ns name hs, split_plain slash name hn)

key_of_name :
    (name : Text)
    → contains slash name ≡ false
    → split_key name ≡ some (record { namespace = []; name = name })
unfolding split_key
key_of_name name hn = ground arith

-- The key of a resource is read back as its namespace and name, if neither holds a slash; with no
-- namespace too.
pub split_key-to_key :
    (ns name : Text) (generation : ℤ)
    → contains slash ns ≡ false
    → contains slash name ≡ false
    → split_key (to_key (record { namespace = ns; name = name; generation = generation }))
      ≡ some (to_namespace_name (record { namespace = ns; name = name; generation = generation }))
unfolding to_key to_namespace_name
split_key-to_key [] name g hs hn = key_of_name name hn
split_key-to_key (c ∷ ns) name g hs hn = key_of_parts (c ∷ ns) name hs hn

find_by_name_found :
    (ports : List ServicePort) (named_port : Text) (p : ServicePort)
    → find_by_name ports named_port ≡ some p
    → p.name ≡ named_port
unfolding find_by_name
find_by_name_found [] named_port p h = ground arith
find_by_name_found (q ∷ ports) named_port p h =
    ground (arith, text_beq_iff q.name named_port, find_by_name_found ports named_port p)

-- The port that is found is the only one of the service, whatever its name, or has the name.
pub find_named_port_found :
    (ports : List ServicePort) (named_port : Text) (p : ServicePort)
    → find_named_port ports named_port ≡ some p
    → (ports ≡ p ∷ []) ⊎ (p.name ≡ named_port)
unfolding find_named_port first_port
find_named_port_found [] named_port p h = ground arith
find_named_port_found (q ∷ []) named_port p h = inl (ground arith)
find_named_port_found (q ∷ r ∷ ports) named_port p h =
    inr (find_by_name_found (q ∷ r ∷ ports) named_port p (ground arith))
