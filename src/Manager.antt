-- ===== src/Manager.antt =====
-- pkg/manager/base_manager.go: the keys under which the managers keep what they run, over the
-- fields of `metav1.ObjectMeta` and `types.NamespacedName` that the program reads.
use k8s_countermeasures.Prelude.{Text, Eq, ◌==◌, text_eq, text_beq_iff, int_beq_iff}
use k8s_countermeasures.Prelude.{codes, ◌≡◌, ◌↔◌, Bool, true, ◌&&◌, ◌++◌, arith}
use k8s_countermeasures.Prelude.Int.{ℤ, int_eq}

pub record NamespacedName : Type 0 where
  pub namespace : Text
  pub name : Text

pub record ObjectMeta : Type 0 where
  pub namespace : Text
  pub name : Text
  pub generation : ℤ

pub record ObjectKey : Type 0 where
  pub namespaced_name : NamespacedName
  pub open namespaced_name use *
  pub generation : ℤ

abbrev pub namespaced_name_beq : NamespacedName → NamespacedName → Bool
namespaced_name_beq a b = a.namespace == b.namespace && a.name == b.name

pub namespaced_name_beq_iff : (a b : NamespacedName) → (namespaced_name_beq a b ≡ true) ↔ (a ≡ b)
namespaced_name_beq_iff a b =
    ground (arith, text_beq_iff a.namespace b.namespace, text_beq_iff a.name b.name)

instance abbrev pub namespaced_name_eq : Eq NamespacedName
namespaced_name_eq = record { beq = namespaced_name_beq; beq_iff = namespaced_name_beq_iff }

abbrev pub object_key_beq : ObjectKey → ObjectKey → Bool
object_key_beq a b = a.namespaced_name == b.namespaced_name && a.generation == b.generation

pub object_key_beq_iff : (a b : ObjectKey) → (object_key_beq a b ≡ true) ↔ (a ≡ b)
object_key_beq_iff a b = ground (
  arith,
  namespaced_name_beq_iff a.namespaced_name b.namespaced_name,
  int_beq_iff a.generation b.generation,
)

instance abbrev pub object_key_eq : Eq ObjectKey
object_key_eq = record { beq = object_key_beq; beq_iff = object_key_beq_iff }

-- `ObjectKey.GetName`, for the logs.
unfoldable pub get_name : ObjectKey → Text
get_name k = k.namespace ++ (codes "/" ++ k.name)

unfoldable pub to_key : ObjectMeta → ObjectKey
to_key m = record {
  namespaced_name = record { namespace = m.namespace; name = m.name };
  generation = m.generation;
}
