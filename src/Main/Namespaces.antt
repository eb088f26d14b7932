-- ===== src/Main/Namespaces.antt =====
-- main.go: the namespaces that `WATCH_NAMESPACE` lists.
use k8s_countermeasures.Prelude.{
  Text, nat_beq_iff, split, join, contains, some, List, [], ◌∷◌, ◌++◌, map, true, false, ◌≡◌, refl,
  ap, ◌∙◌, arith,
}
use k8s_countermeasures.Prelude.Parts.{AllPlain, split-join, join_more, contains-append}
use k8s_countermeasures.Prelude.Trim.{trim_space, AllSpace, trim_space-padded}
use k8s_countermeasures.Main.{Flags, comma, manager_options, get_watch_namespace, watch_namespace}

-- A namespace as it is written, with the spaces before and after it.
pub record Padded : Type 0 where
  pub before : Text
  pub namespace : Text
  pub after : Text

abbrev pub written : Padded → Text
written p = p.before ++ (p.namespace ++ p.after)

-- The name holds no comma and no space at an end.
pub record IsPadded (p : Padded) : Type 0 where
  pub spaces_before : AllSpace p.before
  pub spaces_after : AllSpace p.after
  pub plain : contains comma p.namespace ≡ false
  pub trimmed : trim_space p.namespace ≡ p.namespace

abbrev pub AllPadded : List Padded → Type 0
AllPadded [] = Unit {0}
AllPadded (p ∷ ps) = IsPadded p × AllPadded ps

spaces-plain : (s : Text) → AllSpace s → contains comma s ≡ false
unfolding contains
spaces-plain [] h = refl
spaces-plain (c ∷ s) h =
    ground (arith, h.0, spaces-plain s h.1, nat_beq_iff c comma, nat_beq_iff c 32)

written-plain : (p : Padded) → IsPadded p → contains comma (written p) ≡ false
written-plain p h = ground (
  arith,
  contains-append comma p.before (p.namespace ++ p.after),
  contains-append comma p.namespace p.after,
  spaces-plain p.before h.spaces_before,
  spaces-plain p.after h.spaces_after,
  h.plain,
)

AllPlain-written : (ps : List Padded) → AllPadded ps → AllPlain comma (map written ps)
AllPlain-written [] h = tt
AllPlain-written (p ∷ ps) h = (written-plain p h.0, AllPlain-written ps h.1)

trimmed-written :
    (ps : List Padded) → AllPadded ps → map trim_space (map written ps) ≡ map (λ p. p.namespace) ps
trimmed-written [] h = refl
trimmed-written (p ∷ ps) h =
    ap (λ n. n ∷ map trim_space (map written ps))
      (trim_space-padded p.before p.namespace p.after h.0.spaces_before h.0.spaces_after
        ∙ h.0.trimmed)
    ∙ ap (λ l. p.namespace ∷ l) (trimmed-written ps h.1)

several : (w v : Text) (ws : List Text) → contains comma (join comma (w ∷ v ∷ ws)) ≡ true
unfolding contains
several w v ws = ground (
  arith,
  ap (contains comma) (join_more comma w v ws),
  contains-append comma w (comma ∷ join comma (v ∷ ws)),
)

-- A list of two or more namespaces, with any spaces around them and commas between, is read back: the
-- manager watches exactly these, in their order, and no single one. A namespace holds no comma and
-- neither starts nor ends with a space.
pub written_namespaces_watched :
    (flags : Flags) (p q : Padded) (ps : List Padded)
    → AllPadded (p ∷ q ∷ ps)
    → let options =
        manager_options flags (watch_namespace (some (join comma (map written (p ∷ q ∷ ps))))) in
      (options.new_cache ≡ some (map (λ x. x.namespace) (p ∷ q ∷ ps))) × (options.namespace ≡ [])
written_namespaces_watched flags p q ps h =
    let text = join comma (map written (p ∷ q ∷ ps)) in
    let found = several (written p) (written q) (map written ps) in
    let parts : map trim_space (split comma text) ≡ map (λ x. x.namespace) (p ∷ q ∷ ps) =
      ap (map trim_space)
        (split-join comma (written p) (map written (q ∷ ps)) (AllPlain-written (p ∷ q ∷ ps) h))
      ∙ trimmed-written (p ∷ q ∷ ps) h in
    unfold manager_options watch_namespace get_watch_namespace in
    (ground (arith, found, parts), ground (arith, found))
