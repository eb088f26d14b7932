-- ===== src/Actions/Perform/Debugging.antt =====
-- pkg/actions/debug.go: the debug container of a pod, event after event.
use mathlib.Core.List.Memᴰ
use mathlib.Core.List.{Memᴰ}
use mathlib.Core.List.Memᴰ.{head, tail}
use k8s_countermeasures.Prelude.{
  ==_iff, Text, text_eq, ◌==◌, ==_refl, is_empty, if◌then◌else◌, Option, none, some, List, [], ◌∷◌,
  ◌++◌, true, false, ◌≡◌, ◌≢◌, refl, sym, ap, subst, ◌∙◌, inl, inr, arith, Bool-cases,
}
use k8s_countermeasures.Manager.{NamespacedName}
use k8s_countermeasures.Events.{Event}
use k8s_countermeasures.Outcome.{Outcome, Error, ok, Outcome-cases, from_error}
use k8s_countermeasures.Api.Types.{DebugSpec}
use k8s_countermeasures.Actions.Cluster.{Cluster, EphemeralContainer}
use k8s_countermeasures.Actions.Perform.{
  BaseAction, perform_debug, answer, object_key_from_template, evaluate_template, debug_container,
  installed,
}

installed-Mem :
    (name : Text) (cs : List EphemeralContainer) (d : EphemeralContainer)
    → Memᴰ d cs
    → d.name ≡ name
    → installed name cs ≡ true
unfolding installed
installed-Mem name [] d m h = absurd (Memᴰ.not-nil m)
installed-Mem name (c ∷ cs) d (head same) h = ground (
  arith,
  ap (λ (x : EphemeralContainer). x.name == name) (sym same) ∙ ap (λ n. n == name) h ∙ ==_refl name,
)
installed-Mem name (c ∷ cs) d (tail m) h = ground (arith, installed-Mem name cs d m h)

-- What is installed under a name is one of the containers.
installed_one :
    (name : Text) (cs : List EphemeralContainer)
    → installed name cs ≡ true
    → (d : EphemeralContainer) × Memᴰ d cs × (d.name ≡ name)
unfolding installed
installed_one name [] h = absurd (ground arith)
installed_one name (c ∷ cs) h = elim (Bool-cases (c.name == name)) [
  | inl same ↦ (c, head refl, (==_iff c.name name).0 same)
  | inr other ↦ let (d, m, e) = installed_one name cs (ground (arith, other, h)) in (d, tail m, e)
]

Mem-last : (cs : List EphemeralContainer) (d : EphemeralContainer) → Memᴰ d (cs ++ d ∷ [])
Mem-last [] d = head refl
Mem-last (c ∷ cs) d = tail (Mem-last cs d)

-- The pod is read with these containers, and maybe others.
abbrev pub ReadsWith : (c : Cluster) → NamespacedName → List EphemeralContainer → c.World → Type 0
ReadsWith c n cs w =
    (pod : c.Pod × List EphemeralContainer) × (c.get_pod n w ≡ ok pod)
    × ((d : EphemeralContainer) → Memᴰ d cs → Memᴰ d pod.1)

-- A pod keeps its ephemeral containers: they are documented never to be changed or removed. `since`
-- holds of an earlier and a later world if by the later one the client's cache, which may be stale, has
-- caught up with the earlier, and no pod was deleted in between.
pub record KeepsContainers (c : Cluster) (since : c.World → c.World → Type 0) : Type 0 where
  pub kept_read :
      (n : NamespacedName) (pod : c.Pod × List EphemeralContainer) (w later : c.World)
      → c.get_pod n w ≡ ok pod
      → since w later
      → ReadsWith c n pod.1 later
  pub kept_written :
      (n : NamespacedName) (pod : c.Pod × List EphemeralContainer) (w later : c.World)
      → (c.update_ephemeral_containers n pod false w).0 ≡ none
      → since (c.update_ephemeral_containers n pod false w).1 later
      → ReadsWith c n pod.1 later

from_error-ok : (o : Option Error) → from_error o ≡ ok tt → o ≡ none
from_error-ok none h = refl
from_error-ok (some e) h = absurd (ground arith)

module _ (c : Cluster) (b : BaseAction) (s : DebugSpec) (event : Event) where
  abbrev pod_name : Outcome NamespacedName
  pod_name = object_key_from_template c s.pod_ref.namespace s.pod_ref.name event

  abbrev container_name : Outcome Text
  container_name = evaluate_template c s.pod_ref.container event

  -- The part of the action that follows the templates.
  abbrev install :
      NamespacedName
      → Text
      → c.Pod × List EphemeralContainer
      → c.World
      → Outcome (Unit {0}) × c.World
  install n k pod w =
      if installed s.name pod.1
      then (ok tt, w)
      else answer c (
          c.update_ephemeral_containers n (pod.0, pod.1 ++ debug_container c s k w ∷ []) b.dry_run
            w)

  debug_lem :
      (n : NamespacedName) (k : Text) (pod : c.Pod × List EphemeralContainer) (w : c.World)
      → pod_name ≡ ok n
      → container_name ≡ ok k
      → c.get_pod n w ≡ ok pod
      → perform_debug c b s event w ≡ install n k pod w
  unfolding perform_debug
  debug_lem n k pod w hn hk hp = ground (arith, hn, hk, hp)

  -- An action that succeeds has read its pod.
  pod_read :
      (w w' : c.World)
      → perform_debug c b s event w ≡ (ok tt, w')
      → (n : NamespacedName) × (k : Text) × (pod : c.Pod × List EphemeralContainer) × (pod_name
          ≡ ok n)
        × (container_name ≡ ok k)
        × (c.get_pod n w ≡ ok pod)
  unfolding perform_debug
  pod_read w w' h = elim (Outcome-cases pod_name) [
    | inr (inl (e, hn)) ↦ absurd (ground (arith, hn, h))
    | inr (inr hn) ↦ absurd (ground (arith, hn, h))
    | inl (n, hn) ↦ elim (Outcome-cases container_name) [
      | inr (inl (e, hk)) ↦ absurd (ground (arith, hn, hk, h))
      | inr (inr hk) ↦ absurd (ground (arith, hn, hk, h))
      | inl (k, hk) ↦ elim (Outcome-cases (c.get_pod n w)) [
        | inr (inl (e, hp)) ↦ absurd (ground (arith, hn, hk, hp, h))
        | inr (inr hp) ↦ absurd (ground (arith, hn, hk, hp, h))
        | inl (pod, hp) ↦ (n, k, pod, hn, hk, hp)
      ]
    ]
  ]

  named_container : (k : Text) (w : c.World) → s.name ≢ [] → (debug_container c s k w).name ≡ s.name
  unfolding debug_container
  named_container k w named = elim (Bool-cases (is_empty s.name)) [
    | inl e ↦ absurd (ground (arith, e, named))
    | inr e ↦ ground (arith, e)
  ]

  module _ (since : c.World → c.World → Type 0) (keeps : KeepsContainers c since) where
    kept_wet :
        (n : NamespacedName) (pod : c.Pod × List EphemeralContainer) (w later : c.World)
        → b.dry_run ≡ false
        → (c.update_ephemeral_containers n pod b.dry_run w).0 ≡ none
        → since (c.update_ephemeral_containers n pod b.dry_run w).1 later
        → ReadsWith c n pod.1 later
    kept_wet n pod w later wet =
        subst
          (λ dry.
            (c.update_ephemeral_containers n pod dry w).0 ≡ none
            → since (c.update_ephemeral_containers n pod dry w).1 later
            → ReadsWith c n pod.1 later)
          (sym wet) (keeps.kept_written n pod w later)

    -- Once the container is installed, whoever reads the pod later finds it.
    found_later :
        (n : NamespacedName) (k : Text) (pod : c.Pod × List EphemeralContainer)
        (w w' later : c.World)
        → b.dry_run ≡ false
        → s.name ≢ []
        → c.get_pod n w ≡ ok pod
        → install n k pod w ≡ (ok tt, w')
        → since w' later
        → (pod' : c.Pod × List EphemeralContainer) × (c.get_pod n later ≡ ok pod')
          × (installed s.name pod'.1 ≡ true)
    found_later n k pod w w' later wet named hp h after =
        elim (Bool-cases (installed s.name pod.1)) [
          | inl old ↦
              let kept : install n k pod w ≡ (ok tt, w) = ground (arith, old) in
              let same : w' ≡ w = ap (λ (x : Outcome (Unit {0}) × c.World). x.1) (sym h ∙ kept) in
              let (pod', read, all) =
                keeps.kept_read n pod w later hp (subst (λ v. since v later) same after) in
              let (d, m, e) = installed_one s.name pod.1 old in
              (pod', read, installed-Mem s.name pod'.1 d (all d m) e)
          | inr new ↦
              let d : EphemeralContainer = debug_container c s k w in
              let next : c.Pod × List EphemeralContainer = (pod.0, pod.1 ++ d ∷ []) in
              let updated = c.update_ephemeral_containers n next b.dry_run w in
              let whole : answer c updated ≡ (ok tt, w') = ground (arith, new, h) in
              let done : updated.0 ≡ none =
                from_error-ok updated.0 (ap (λ (x : Outcome (Unit {0}) × c.World). x.0) whole) in
              let world : w' ≡ updated.1 =
                sym (ap (λ (x : Outcome (Unit {0}) × c.World). x.1) whole) in
              let (pod', read, all) =
                kept_wet n next w later wet done (subst (λ v. since v later) world after) in
              (
                pod',
                read,
                installed-Mem s.name pod'.1 d (all d (Mem-last pod.1 d))
                    (named_container k w named),
              )
        ]

-- A debug action with a container name that has succeeded, and was no dry run, adds nothing when it is
-- performed again: for a later event whose templates name the same pod and container, it succeeds and
-- leaves the cluster as it is. By then the client reads what was written; others may have written too,
-- the pod was not deleted, and it keeps its ephemeral containers.
pub debug_installs_once :
    (c : Cluster) (b : BaseAction) (s : DebugSpec) (event again : Event)
    (since : c.World → c.World → Type 0) (w w' later : c.World)
    → KeepsContainers c since
    → b.dry_run ≡ false
    → s.name ≢ []
    → perform_debug c b s event w ≡ (ok tt, w')
    → since w' later
    → object_key_from_template c s.pod_ref.namespace s.pod_ref.name again
      ≡ object_key_from_template c s.pod_ref.namespace s.pod_ref.name event
    → evaluate_template c s.pod_ref.container again ≡ evaluate_template c s.pod_ref.container event
    → perform_debug c b s again later ≡ (ok tt, later)
debug_installs_once c b s event again since w w' later keeps wet named h after same_pod same_name =
    let (n, k, pod, hn, hk, hp) = pod_read c b s event w w' h in
    let first : install c b s event n k pod w ≡ (ok tt, w') =
      sym (debug_lem c b s event n k pod w hn hk hp) ∙ h in
    let (pod', read, there) =
      found_later c b s event since keeps n k pod w w' later wet named hp first after in
    debug_lem c b s again n k pod' later (same_pod ∙ hn) (same_name ∙ hk) read
    ∙ ground (arith, there)
