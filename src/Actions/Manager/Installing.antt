-- ===== src/Actions/Manager/Installing.antt =====
-- Installing countermeasures and removing them: the manager's map, its state and the bus together.
use k8s_countermeasures.Prelude.{
  text_eq, lookup, insert, delete, lookup-insert, lookup-delete, ◌==◌, Option, none, some, ◌||◌,
  ◌&&◌, not, ◌≡◌, refl, sym, ap, ◌∙◌, inl, inr, arith, Option-cases, subst,
}
use k8s_countermeasures.Manager.{
  NamespacedName, ObjectMeta, ObjectKey, namespaced_name_eq, object_key_eq, to_key,
}
use k8s_countermeasures.Outcome.{Error, ok}
use k8s_countermeasures.Api.Types.{CounterMeasure, LabelSelector}
use k8s_countermeasures.EventBus.Bus.{Bus, subscribe}
use k8s_countermeasures.EventBus.Bus.Invariant
use k8s_countermeasures.EventBus.Bus.Invariant.{subscribe-IsValid}
use k8s_countermeasures.EventBus.Bus.Leaving.{unsubscribe-cases}
use k8s_countermeasures.State.{is_deployed}
use k8s_countermeasures.State
use k8s_countermeasures.State.Deployment.{is_deployed-add, is_deployed-remove}
use k8s_countermeasures.Actions.Manager.{
  Manager, Consumer, add, remove, exists, source_error, unsubscribe_consumer,
}

abbrev pub name_of : ObjectMeta → NamespacedName
name_of meta = (to_key meta).namespaced_name

abbrev pub installed : Manager → CounterMeasure → Manager
installed m cm =
    let topic = cm.spec.on_event.event_name in
    record {
      consumers =
          insert (name_of cm.object_meta)
            (record { topic = topic; channel = (subscribe m.bus topic).0 }) m.consumers;
      state = State.add m.state cm;
      bus = (subscribe m.bus topic).1;
    }

pub add_lem :
    (select_sources : LabelSelector → Option Error) (m m' : Manager) (cm : CounterMeasure)
    → add select_sources m cm ≡ ok m'
    → installed m cm ≡ m'
unfolding add
add_lem select_sources m m' cm h =
    elim (Option-cases (source_error select_sources cm.spec.on_event.source_selector)) [
      | inl e ↦ ground (arith, e)
      | inr (x, e) ↦ absurd (ground (arith, e))
    ]

exists-installed :
    (m : Manager) (cm : CounterMeasure) (meta : ObjectMeta)
    → exists (installed m cm) meta ≡ (name_of cm.object_meta == name_of meta || exists m meta)
unfolding exists
exists-installed m cm meta = ground (
  arith,
  lookup-insert (name_of cm.object_meta) (name_of meta)
      (record {
        topic = cm.spec.on_event.event_name;
        channel = (subscribe m.bus cm.spec.on_event.event_name).0;
      })
      m.consumers,
)

-- An installation that succeeds keeps the bus valid. Its name exists from then on, in whatever
-- generation it is asked for, beside the names before it; in the state only its own generation of
-- the name is deployed.
pub add_installs :
    (select_sources : LabelSelector → Option Error) (m m' : Manager) (cm : CounterMeasure)
    → Invariant.IsValid m.bus
    → add select_sources m cm ≡ ok m'
    → Invariant.IsValid m'.bus
      × ((meta : ObjectMeta)
          → exists m' meta ≡ (name_of cm.object_meta == name_of meta || exists m meta))
      × ((key : ObjectKey)
          → is_deployed m'.state key ≡ (
              key == to_key cm.object_meta
              || (is_deployed m.state key && not (key.namespaced_name == name_of cm.object_meta))))
add_installs select_sources m m' cm v h =
    let same = add_lem select_sources m m' cm h in
    (
      subst (λ x. Invariant.IsValid x.bus) same
          (subscribe-IsValid m.bus cm.spec.on_event.event_name v),
      λ meta. ap (λ x. exists x meta) (sym same) ∙ exists-installed m cm meta,
      λ key. ap (λ x. is_deployed x.state key) (sym same) ∙ is_deployed-add m.state cm key,
    )

abbrev removed : Manager → NamespacedName → Bus → Manager
removed m name bus = record {
  consumers = delete name m.consumers;
  state = State.remove m.state name;
  bus = bus;
}

exists-removed :
    (m : Manager) (name : NamespacedName) (bus : Bus) (meta : ObjectMeta)
    → exists (removed m name bus) meta ≡ (exists m meta && not (name_of meta == name))
unfolding exists
exists-removed m name bus meta = ground (arith, lookup-delete name (name_of meta) m.consumers)

unsubscribed :
    (o : Option Consumer) (bus : Bus)
    → Invariant.IsValid bus
    → (bus' : Bus) × (unsubscribe_consumer o bus ≡ some bus') × Invariant.IsValid bus'
unfolding unsubscribe_consumer
unsubscribed none bus v = (bus, refl, v)
unsubscribed (some c) bus v =
    let (bus', e, v', _) = unsubscribe-cases bus c.topic c.channel v in (bus', e, v')

-- A removal never panics on a valid bus, leaves the bus valid, and takes exactly the name away: from
-- the consumers, and every generation of it from the state.
pub remove_removes :
    (m : Manager) (name : NamespacedName)
    → Invariant.IsValid m.bus
    → (m' : Manager) × (remove m name ≡ some m')
      × Invariant.IsValid m'.bus
      × ((meta : ObjectMeta) → exists m' meta ≡ (exists m meta && not (name_of meta == name)))
      × ((key : ObjectKey)
          → is_deployed m'.state key
            ≡ (is_deployed m.state key && not (key.namespaced_name == name)))
unfolding remove
remove_removes m name v =
    let (bus, e, v') = unsubscribed (lookup name m.consumers) m.bus v in
    (
      removed m name bus,
      ground (arith, e),
      v',
      exists-removed m name bus,
      is_deployed-remove m.state name,
    )
