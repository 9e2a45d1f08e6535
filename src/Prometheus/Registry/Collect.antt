-- ===== src/Prometheus/Registry/Collect.antt =====
-- PrometheusRegistry.hpp: what a collection holds.
use log_it_cpp.Base.{
  ◌≡◌, refl, ap, ap₂, sym, ◌∙◌, Bool, true, false, ◌&&◌, List, [], ◌∷◌, ◌++◌, append_assoc,
  append-nil, Option, none, some, ◌⊎◌, inl, inr, ◌==◌, if◌then◌else◌, ==_iff, Bool-cases,
}
use log_it_cpp.Record.{Bytes}
use log_it_cpp.Prometheus.{MetricType, counter, gauge, untyped, Label, Double, Sample, MetricFamily}
use log_it_cpp.Prometheus.Registry.{
  Entry, Registry, bytes_eq, labels_equal, type_eq, same_metric, set_in, set_metric, is_family,
  add_sample, sample_of, collect_one, collect_loop, collect,
}

bytes_eq→eq : (x y : Bytes) → bytes_eq x y ≡ true → x ≡ y
unfolding bytes_eq
bytes_eq→eq [] [] h = refl
bytes_eq→eq [] (d ∷ y) h = cc
bytes_eq→eq (c ∷ x) [] h = cc
bytes_eq→eq (c ∷ x) (d ∷ y) h = elim (Bool-cases (c == d)) [
  | inl e ↦ ap₂ ◌∷◌ ((==_iff c d).0 e) (bytes_eq→eq x y (sym (ap (λ b. b && bytes_eq x y) e) ∙ h))
  | inr e ↦ cc (sym (ap (λ b. b && bytes_eq x y) e) ∙ h)
]

type_eq→eq : (s t : MetricType) → type_eq s t ≡ true → s ≡ t
unfolding type_eq
type_eq→eq counter counter h = refl
type_eq→eq gauge gauge h = refl
type_eq→eq untyped untyped h = refl
type_eq→eq counter gauge h = cc
type_eq→eq counter untyped h = cc
type_eq→eq gauge counter h = cc
type_eq→eq gauge untyped h = cc
type_eq→eq untyped counter h = cc
type_eq→eq untyped gauge h = cc

both : (a b : Bool) → (a && b) ≡ true → (a ≡ true) × (b ≡ true)
both true b h = (refl, h)
both false b h = cc

module _ {F : Type 0} where
  -- The samples of the family with this name and type.
  abbrev pub samples_in : List (MetricFamily F) → Bytes → MetricType → List (Sample F)
  samples_in [] n t = []
  samples_in (f ∷ fs) n t = if is_family n t f then f.samples else samples_in fs n t

  same_key :
      (f : MetricFamily F) (n m : Bytes) (t u : MetricType)
      → is_family n t f ≡ true
      → is_family m u f ≡ (bytes_eq n m && type_eq t u)
  same_key f n m t u h =
      let e = both (bytes_eq f.name n) (type_eq f.type_ t) h in
      ap₂ (λ a b. bytes_eq a m && type_eq b u) (bytes_eq→eq f.name n e.0) (type_eq→eq f.type_ t e.1)

  other_key :
      (f : MetricFamily F) (n m : Bytes) (t u : MetricType)
      → is_family n t f ≡ false
      → is_family m u f ≡ true
      → (bytes_eq n m && type_eq t u) ≡ false
  other_key f n m t u h k = elim (Bool-cases (bytes_eq n m && type_eq t u)) [
    | inl e ↦
        let x = both (bytes_eq n m) (type_eq t u) e in
        cc (sym h ∙ ap₂ (λ a b. is_family a b f) (bytes_eq→eq n m x.0) (type_eq→eq t u x.1) ∙ k)
    | inr e ↦ e
  ]

  -- A sample that is added is the last of its family; no other family changes.
  samples-add :
      (fs : List (MetricFamily F)) (n m h : Bytes) (t u : MetricType) (x : Sample F)
      → samples_in (add_sample fs n t h x) m u
        ≡ samples_in fs m u ++ (if bytes_eq n m && type_eq t u then x ∷ [] else [])
  unfolding add_sample
  samples-add [] n m h t u x = refl
  samples-add (f ∷ fs) n m h t u x = elim (Bool-cases (is_family n t f)) [
    | inl e ↦ elim (Bool-cases (bytes_eq n m && type_eq t u)) [
      | inl k ↦ rw (e, k, same_key f n m t u e ∙ k) refl
      | inr k ↦ rw (e, k, same_key f n m t u e ∙ k) (sym (append-nil _))
    ]
    | inr e ↦ elim (Bool-cases (is_family m u f)) [
      | inl k ↦ rw (e, k, other_key f n m t u e k) (sym (append-nil f.samples))
      | inr k ↦ rw (e, k) (samples-add fs n m h t u x)
    ]
  ]

module _ {F E Fn : Type 0} (call : Fn → Double F ⊎ E) (metric_prefix : Bytes) where
  abbrev pub sample_if : Double F ⊎ E → Entry Fn → Bytes → MetricType → List (Sample F)
  sample_if (inl value) entry n t =
      if bytes_eq (metric_prefix ++ entry.name) n && type_eq entry.type_ t
      then sample_of call metric_prefix entry value ∷ []
      else []
  sample_if (inr e) entry n t = []

  -- The samples that the entries make for a family, in their order.
  abbrev pub expected : List (Entry Fn) → Bytes → MetricType → List (Sample F)
  expected [] n t = []
  expected (entry ∷ entries) n t = sample_if (call entry.value_fn) entry n t ++ expected entries n t

  samples-one :
      (r : Double F ⊎ E) (entry : Entry Fn) (s : List (MetricFamily F) × Option E) (n : Bytes)
      (t : MetricType)
      → samples_in (collect_one call metric_prefix r entry s).0 n t
        ≡ samples_in s.0 n t ++ sample_if r entry n t
  unfolding collect_one
  samples-one (inl value) entry s n t =
      samples-add s.0 (metric_prefix ++ entry.name) n entry.help entry.type_ t
        (sample_of call metric_prefix entry value)
  samples-one (inr e) entry s n t = sym (append-nil (samples_in s.0 n t))

  samples-loop :
      (entries : List (Entry Fn)) (s : List (MetricFamily F) × Option E) (n : Bytes)
      (t : MetricType)
      → samples_in (collect_loop call metric_prefix entries s).0 n t
        ≡ samples_in s.0 n t ++ expected entries n t
  unfolding collect_loop
  samples-loop [] s n t = sym (append-nil (samples_in s.0 n t))
  samples-loop (entry ∷ entries) s n t =
      let r = call entry.value_fn in
      samples-loop entries (collect_one call metric_prefix r entry s) n t
      ∙ ap (λ x. x ++ expected entries n t) (samples-one r entry s n t)
      ∙ append_assoc (samples_in s.0 n t) (sample_if r entry n t) (expected entries n t)

-- A collection into an empty list holds, in the family of each name and type, the samples of the
-- entries with that full name and type whose callback did not throw, in the order of the entries.
pub samples-collect :
    {F E Fn : Type 0} (call : Fn → Double F ⊎ E) (r : Registry Fn) (n : Bytes) (t : MetricType)
    → samples_in (collect call r []).0 n t ≡ expected call r.metric_prefix r.entries n t
unfolding collect
samples-collect call r n t = samples-loop call r.metric_prefix r.entries ([], none) n t

labels_equal→eq : (x y : List Label) → labels_equal x y ≡ true → x ≡ y
unfolding labels_equal
labels_equal→eq [] [] h = refl
labels_equal→eq [] (d ∷ y) h = cc
labels_equal→eq (c ∷ x) [] h = cc
labels_equal→eq (c ∷ x) (d ∷ y) h =
    let k = both (bytes_eq c.name d.name && bytes_eq c.value d.value) (labels_equal x y) h in
    let l = both (bytes_eq c.name d.name) (bytes_eq c.value d.value) k.0 in
    ap₂ ◌∷◌
      (ap₂ (λ a b. record { name = a; value = b }) (bytes_eq→eq c.name d.name l.0)
        (bytes_eq→eq c.value d.value l.1))
      (labels_equal→eq x y k.1)

module _ {Fn : Type 0} where
  abbrev pub has_key : Bytes → List Label → Entry Fn → Bool
  has_key name labels entry = bytes_eq entry.name name && labels_equal entry.labels labels

  -- The entry of a name and its labels.
  abbrev pub find_entry : List (Entry Fn) → Bytes → List Label → Option (Entry Fn)
  find_entry [] n ls = none
  find_entry (entry ∷ entries) n ls =
      if has_key n ls entry then some entry else find_entry entries n ls

  key-eq :
      (x : Entry Fn) (n : Bytes) (ls : List Label)
      → has_key n ls x ≡ true
      → (x.name ≡ n) × (x.labels ≡ ls)
  key-eq x n ls h =
      let k = both (bytes_eq x.name n) (labels_equal x.labels ls) h in
      (bytes_eq→eq x.name n k.0, labels_equal→eq x.labels ls k.1)

  key-same :
      (x new : Entry Fn) (n : Bytes) (ls : List Label)
      → same_metric x new ≡ true
      → has_key n ls x ≡ has_key n ls new
  key-same x new n ls h =
      let k = key-eq x new.name new.labels h in
      ap₂ (λ a b. bytes_eq a n && labels_equal b ls) k.0 k.1

  key-other :
      (x new : Entry Fn) (n : Bytes) (ls : List Label)
      → same_metric x new ≡ false
      → has_key n ls x ≡ true
      → has_key n ls new ≡ false
  key-other x new n ls h k = elim (Bool-cases (has_key n ls new)) [
    | inl e ↦
        let y = key-eq new n ls e in
        cc (sym h ∙ ap₂ (λ a b. bytes_eq x.name a && labels_equal x.labels b) y.0 y.1 ∙ k)
    | inr e ↦ e
  ]

  find-set_in :
      (es : List (Entry Fn)) (new : Entry Fn) (n : Bytes) (ls : List Label)
      → find_entry (set_in es new) n ls
        ≡ (if has_key n ls new then some new else find_entry es n ls)
  unfolding set_in
  find-set_in [] new n ls = refl
  find-set_in (x ∷ es) new n ls = elim (Bool-cases (same_metric x new)) [
    | inl e ↦ elim (Bool-cases (has_key n ls new)) [
      | inl k ↦ rw (e, k) refl
      | inr k ↦ rw (e, k, key-same x new n ls e ∙ k) refl
    ]
    | inr e ↦ elim (Bool-cases (has_key n ls x)) [
      | inl k ↦ rw (e, k, key-other x new n ls e k) refl
      | inr k ↦ rw (e, k) (find-set_in es new n ls)
    ]
  ]

  -- Setting a metric replaces the entry of its name and labels or adds it, and leaves every other.
  pub find_entry-set_metric :
      (r : Registry Fn) (new : Entry Fn) (n : Bytes) (ls : List Label)
      → find_entry (set_metric r new).entries n ls
        ≡ (if has_key n ls new then some new else find_entry r.entries n ls)
  unfolding set_metric
  find_entry-set_metric r new n ls = find-set_in r.entries new n ls
