-- ===== src/Prometheus/Registry.antt =====
-- loggers/prometheus/PrometheusRegistry.hpp: custom metrics. A callback is a value of a type `Fn`;
-- what a call of it does (a value, or an exception of a type `E`) is the parameter `call`, the same
-- for the whole of one collection. set_metric_prefix replaces the field of that name.
pub mod Collect
use log_it_cpp.Base.{
  ℕ, ◌≡◌, refl, ap, ap₂, Bool, true, false, ◌&&◌, not, List, [], ◌∷◌, ◌++◌, Option, none, some, ◌⊎◌,
  inl, inr, ◌==◌, if◌then◌else◌, arith, ==_iff, sym, ◌∙◌,
}
use log_it_cpp.Base.Ints.{ℤ, pos}
use log_it_cpp.Record.{Bytes}
use log_it_cpp.Prometheus.{MetricType, counter, gauge, untyped, Label, Double, Sample, MetricFamily}

pub record Entry (Fn : Type 0) : Type 0 where
  pub type_ : MetricType
  pub name : Bytes
  pub help : Bytes
  pub value_fn : Fn
  pub labels : List Label

pub record Registry (Fn : Type 0) : Type 0 where
  pub metric_prefix : Bytes
  pub entries : List (Entry Fn)

-- `std::string::operator==`.
pub bytes_eq : Bytes → Bytes → Bool
bytes_eq [] [] = true
bytes_eq [] (y ∷ ys) = false
bytes_eq (x ∷ xs) [] = false
bytes_eq (x ∷ xs) (y ∷ ys) = x == y && bytes_eq xs ys

pub labels_equal : List Label → List Label → Bool
labels_equal [] [] = true
labels_equal [] (r ∷ rs) = false
labels_equal (l ∷ ls) [] = false
labels_equal (l ∷ ls) (r ∷ rs) =
    bytes_eq l.name r.name && bytes_eq l.value r.value && labels_equal ls rs

pub type_eq : MetricType → MetricType → Bool
type_eq counter counter = true
type_eq gauge gauge = true
type_eq untyped untyped = true
type_eq _ _ = false

module _ {Fn : Type 0} where
  abbrev pub same_metric : Entry Fn → Entry Fn → Bool
  same_metric entry new = bytes_eq entry.name new.name && labels_equal entry.labels new.labels

  -- The loop of set_metric, and the append behind it.
  pub set_in : List (Entry Fn) → Entry Fn → List (Entry Fn)
  set_in [] new = new ∷ []
  set_in (entry ∷ entries) new =
      if same_metric entry new then new ∷ entries else entry ∷ set_in entries new

  pub set_metric : Registry Fn → Entry Fn → Registry Fn
  set_metric r new = record r { entries = set_in r.entries new }

  pub set_gauge : Registry Fn → Bytes → Bytes → Fn → List Label → Registry Fn
  set_gauge r name help value_fn labels =
      set_metric r
        (record { type_ = gauge; name = name; help = help; value_fn = value_fn; labels = labels })

  pub set_counter : Registry Fn → Bytes → Bytes → Fn → List Label → Registry Fn
  set_counter r name help value_fn labels =
      set_metric r
        (record { type_ = counter; name = name; help = help; value_fn = value_fn; labels = labels })

module _ {F : Type 0} where
  abbrev pub is_family : Bytes → MetricType → MetricFamily F → Bool
  is_family name type_ family = bytes_eq family.name name && type_eq family.type_ type_

  pub find_family : List (MetricFamily F) → Bytes → MetricType → Option (MetricFamily F)
  find_family [] name type_ = none
  find_family (family ∷ families) name type_ =
      if is_family name type_ family then some family else find_family families name type_

  -- The sample goes to the family that find_family finds, or to a new one at the end.
  pub add_sample :
      List (MetricFamily F) → Bytes → MetricType → Bytes → Sample F → List (MetricFamily F)
  add_sample [] name type_ help sample =
      record { name = name; help = help; type_ = type_; samples = sample ∷ [] } ∷ []
  add_sample (family ∷ families) name type_ help sample =
      if is_family name type_ family
      then record family { samples = family.samples ++ sample ∷ [] } ∷ families
      else family ∷ add_sample families name type_ help sample

-- `if (!first_exception) first_exception = std::current_exception()`
abbrev pub first : {E : Type 0} → Option E → E → Option E
first none e = some e
first (some d) e = some d

module _ {F E Fn : Type 0} (call : Fn → Double F ⊎ E) (metric_prefix : Bytes) where
  abbrev pub sample_of : Entry Fn → Double F → Sample F
  sample_of entry value = record {
    name = metric_prefix ++ entry.name;
    value = value;
    labels = entry.labels;
    timestamp_ms = pos 0;
  }

  -- One round of the loop of collect: the families so far, and the first exception.
  pub collect_one :
      Double F ⊎ E → Entry Fn → List (MetricFamily F) × Option E → List (MetricFamily F) × Option E
  collect_one (inl value) entry s = (
    add_sample s.0 (metric_prefix ++ entry.name) entry.type_ entry.help (sample_of entry value),
    s.1,
  )
  collect_one (inr e) entry s = (s.0, first s.1 e)

  pub collect_loop :
      List (Entry Fn) → List (MetricFamily F) × Option E → List (MetricFamily F) × Option E
  collect_loop [] s = s
  collect_loop (entry ∷ entries) s =
      collect_loop entries (collect_one (call entry.value_fn) entry s)

-- `collect`: what `out` is afterwards, and the exception that leaves, if any.
pub collect :
    {F E Fn : Type 0}
    → (Fn → Double F ⊎ E)
    → Registry Fn
    → List (MetricFamily F)
    → List (MetricFamily F) × Option E
collect call r out =
    let s = collect_loop call r.metric_prefix r.entries ([], none) in (out ++ s.0, s.1)
