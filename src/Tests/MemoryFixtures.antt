-- ===== src/Tests/MemoryFixtures.antt =====
-- A countermeasure, a source and lists of them in memory, and copies of the libraries' structs.
use k8s_countermeasures.Prelude.{
  ℕ, zero, suc, ◌≡◌, refl, Text, codes, List, [], ◌∷◌, Option, none, some, false, arith,
}
use k8s_countermeasures.Prelude.Int.{pos}
use k8s_countermeasures.Manager.{ObjectMeta}
use k8s_countermeasures.Api.Types.{Condition}
use k8s_countermeasures.Memory.Objects.{
  ActionObject, Cell, CounterMeasureObject, DebugObject, Foreign, PrometheusObject, TypeMeta,
  Pointer,
}
use k8s_countermeasures.Memory.Stored.{
  foreign-Storable, string-Storable, counter_measure-Storable, counter_measure_list-Storable,
}
use k8s_countermeasures.Memory.StoredSources.{prometheus-Storable, prometheus_list-Storable}
use k8s_countermeasures.Memory.Heap.{Heap, pure, ◌>>=◌, copy_pointer}
use k8s_countermeasures.Memory.Readers.{give, ◌>>=◌ as bind, read_pointer}
use k8s_countermeasures.Memory.Reading.{ForeignReads}
use k8s_countermeasures.Memory.CounterMeasures.{ForeignCopies}
use k8s_countermeasures.Memory.Separation.{Copies-pure, IsFresh}
use k8s_countermeasures.Memory.Separation.Forms.{Copies-pointer, Copies-map, Copies-record}
use k8s_countermeasures.Memory.Structs.{ForeignLaws}

-- A selector that holds its text behind a pointer, and other structs that hold theirs themselves.
abbrev pub first : List ℕ → Pointer
first [] = none
first (p ∷ ps) = some p

abbrev pub only : Pointer → List ℕ
only none = []
only (some p) = p ∷ []

abbrev pub text_of : Option Text → Text
text_of none = []
text_of (some t) = t

abbrev pub meta_of : Foreign → ObjectMeta
meta_of x = record { namespace = codes "ns"; name = x.words; generation = pos 1 }

abbrev pub condition_of : Foreign → Condition
condition_of x = record {
  kind = x.words;
  status = codes "True";
  observed_generation = pos 1;
  last_transition_time = none;
  reason = [];
  message = [];
}

abbrev pub reads : ForeignReads
reads = record {
  object_meta = λ x. bind (give x) (λ y. give (meta_of y));
  list_meta = λ x. bind (give x) (λ y. give y.words);
  label_selector =
      λ x. bind (read_pointer {X = Text} give (first x.references)) (λ t. give (text_of t));
  time = λ x. bind (give x) (λ y. give (pos 5));
  condition = λ x. bind (give x) (λ y. give (condition_of y));
}

abbrev pub copies : ForeignCopies
copies = record {
  object_meta = pure;
  list_meta = pure;
  label_selector = λ x. do
    p ← copy_pointer {X = Text} pure (first x.references)
    pure (record x { references = only p });
  time = pure;
  condition = pure;
}

first-only : (p : Pointer) → first (only p) ≡ p
first-only none = refl
first-only (some p) = refl

pub laws : ForeignLaws reads copies
laws = record {
  object_meta = Copies-map meta_of Copies-pure;
  list_meta = Copies-map (λ (y : Foreign). y.words) Copies-pure;
  label_selector =
      Copies-record (λ (x : Foreign). first x.references) (λ x p. record x { references = only p })
        (λ x t. text_of t) (Copies-pointer {X = Text} Copies-pure) (λ x p. first-only p)
        (λ x p t. refl) (λ x h. refl) (λ x h. refl);
  time = Copies-map (λ (y : Foreign). pos 5) Copies-pure;
  condition = Copies-map condition_of Copies-pure;
}

abbrev pub get_elem? : List Cell → ℕ → Option Cell
get_elem? [] p = none
get_elem? (c ∷ cs) zero = some c
get_elem? (c ∷ cs) (suc p) = get_elem? cs p

abbrev pub length : List Cell → ℕ
length [] = 0
length (c ∷ cs) = suc (length cs)

-- The cells at the first addresses.
abbrev pub heap_of : List Cell → Heap
heap_of cs = record { free = length cs; cell = get_elem? cs }

pub heap_of-IsFresh : (cs : List Cell) → IsFresh (heap_of cs)
heap_of-IsFresh [] p free = refl
heap_of-IsFresh (c ∷ cs) zero free = absurd (omega arith)
heap_of-IsFresh (c ∷ cs) (suc p) free = heap_of-IsFresh cs p (omega arith)

abbrev pub foreign : Text → List ℕ → Foreign
foreign words references = record { words = words; references = references }

abbrev pub type_meta : Text → TypeMeta
type_meta kind = record { kind = kind; api_version = codes "v1" }

abbrev pub debug : DebugObject
debug = record {
  name = codes "debug";
  command = some 3;
  args = none;
  image = codes "busybox";
  pod_ref = record { namespace = codes "ns"; name = codes "pod"; container = [] };
  std_in = false;
  tty = false;
}

abbrev pub action : ActionObject
action = record {
  name = codes "look";
  retry_enabled = false;
  delete = none;
  patch = none;
  debug = some 2;
  restart = none;
}

abbrev pub counter_measure : CounterMeasureObject
counter_measure = record {
  type_meta = type_meta (codes "CounterMeasure");
  object_meta = foreign (codes "cm") [];
  spec = record {
    on_event = record {
      event_name = codes "high";
      source_selector = some 4;
      suppression_policy = some 6;
    };
    actions = some 1;
    dry_run = false;
  };
  status = record {
    last_status = codes "Monitoring";
    last_status_change_time = some 8;
    conditions = some 9;
  };
}

abbrev pub prometheus : PrometheusObject
prometheus = record {
  type_meta = type_meta (codes "Prometheus");
  object_meta = foreign (codes "source") [];
  spec = record {
    service = record {
      namespace = codes "ns";
      name = codes "web";
      path = some 5;
      port = pos 80;
      target_port = [];
      use_tls = false;
    };
    auth = some 13;
    polling_interval = pos 15;
    include_pending = false;
  };
  status = record { state = codes "Polling"; conditions = some 9 };
}

abbrev pub cells : List Cell
cells =
    Cell.counter_measure counter_measure
    ∷ Cell.actions (action ∷ [])
    ∷ Cell.debug debug
    ∷ Cell.strings (codes "sh" ∷ codes "-i" ∷ [])
    ∷ Cell.foreign (foreign [] (5 ∷ []))
    ∷ Cell.string (codes "app=web")
    ∷ Cell.policy (record { duration = some 7 })
    ∷ Cell.duration (pos 60)
    ∷ Cell.foreign (foreign [] [])
    ∷ Cell.conditions (foreign (codes "Monitoring") [] ∷ [])
    ∷ Cell.counter_measure_list (record {
      type_meta = type_meta (codes "CounterMeasureList");
      list_meta = foreign (codes "7") [];
      items = some 11;
    })
    ∷ Cell.counter_measures (counter_measure ∷ counter_measure ∷ [])
    ∷ Cell.prometheus prometheus
    ∷ Cell.auth (record { secret_reference = record { namespace = []; name = codes "secret" } })
    ∷ Cell.prometheus_list (record {
      type_meta = type_meta (codes "PrometheusList");
      list_meta = foreign (codes "8") [];
      items = some 15;
    })
    ∷ Cell.prometheuses (prometheus ∷ [])
    ∷ []

abbrev pub memory : Heap
memory = heap_of cells

-- The old memory is freed, or the new one.
abbrev pub freed : ℕ → Option Cell
freed p = none
