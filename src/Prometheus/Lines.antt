-- ===== src/Prometheus/Lines.antt =====
-- PrometheusTextSerializer.hpp: the lines of the text.
use log_it_cpp.Base.{
  ℕ, ◌+◌, ◌≡◌, refl, ◌∙◌, Bool, true, false, ◌&&◌, not, List, [], ◌∷◌, ◌++◌, ◌==◌, if◌then◌else◌,
  Bool-cases, inl, inr, arith, length,
}
use log_it_cpp.Base.Ints.{ℤ}
use log_it_cpp.Record.{Bytes}
use log_it_cpp.Prometheus.{
  MetricType, counter, gauge, untyped, Label, Double, nan, plus_infinity, minus_infinity, finite,
  Sample, MetricFamily, Config, newline, space, escape_help, escape_label_value, metric_char,
  label_char, sanitize_from, never_empty, sanitize_metric_name, sanitize_label_name, type_text,
  is_empty, write_label, write_labels_from, write_labels, format_value, write_sample, write_samples,
  write_help, write_type, write_metric_family,
}

-- How many line ends a text has.
unfoldable pub lines : Bytes → ℕ
lines [] = 0
lines (c ∷ t) = (if c == newline then 1 else 0) + lines t

pub lines-append : (s t : Bytes) → lines (s ++ t) ≡ lines s + lines t
unfolding lines
lines-append [] t = omega arith
lines-append (c ∷ s) t = omega (arith, lines-append s t)

lines-escape_help : (t : Bytes) → lines (escape_help t) ≡ 0
unfolding lines escape_help
lines-escape_help [] = refl
lines-escape_help (c ∷ t) = ground (arith, lines-escape_help t)

lines-escape_label_value : (t : Bytes) → lines (escape_label_value t) ≡ 0
unfolding lines escape_label_value
lines-escape_label_value [] = refl
lines-escape_label_value (c ∷ t) = ground (arith, lines-escape_label_value t)

lines-sanitize_metric : (i : ℕ) (t : Bytes) → lines (sanitize_from metric_char i t) ≡ 0
unfolding lines sanitize_from
lines-sanitize_metric i [] = refl
lines-sanitize_metric i (c ∷ t) = ground (arith, lines-sanitize_metric (i + 1) t)

lines-sanitize_label : (i : ℕ) (t : Bytes) → lines (sanitize_from label_char i t) ≡ 0
unfolding lines sanitize_from
lines-sanitize_label i [] = refl
lines-sanitize_label i (c ∷ t) = ground (arith, lines-sanitize_label (i + 1) t)

lines-never_empty : (t : Bytes) → lines (never_empty t) ≡ lines t
unfolding lines
lines-never_empty [] = refl
lines-never_empty (c ∷ t) = refl

lines-metric_name : (t : Bytes) → lines (sanitize_metric_name t) ≡ 0
unfolding sanitize_metric_name
lines-metric_name t = lines-never_empty _ ∙ lines-sanitize_metric 0 t

lines-label_name : (t : Bytes) → lines (sanitize_label_name t) ≡ 0
unfolding sanitize_label_name
lines-label_name t = lines-never_empty _ ∙ lines-sanitize_label 0 t

lines-write_label : (l : Label) → lines (write_label l) ≡ 0
unfolding write_label lines
lines-write_label l = simp (lines-append, lines-label_name, lines-escape_label_value)

lines-comma : (i : ℕ) → lines (if i == 0 then [] else 44 ∷ []) ≡ 0
unfolding lines
lines-comma i = ground arith

lines-write_labels_from : (i : ℕ) (ls : List Label) → lines (write_labels_from i ls) ≡ 0
unfolding write_labels_from lines
lines-write_labels_from i [] = refl
lines-write_labels_from i (l ∷ ls) =
    simp (lines-append, lines-comma, lines-write_label, lines-write_labels_from (i + 1) ls)

lines-write_labels : (ls : List Label) → lines (write_labels ls) ≡ 0
unfolding write_labels lines
lines-write_labels [] = refl
lines-write_labels (l ∷ ls) = omega (
  arith,
  lines-append (write_labels_from 0 (l ∷ ls)) (125 ∷ []),
  lines-write_labels_from 0 (l ∷ ls),
)

module _ {F : Type 0} (show_finite : F → Bytes) (show_int : ℤ → Bytes)
    (one_line : (x : F) → lines (show_finite x) ≡ 0)
    (int_line : (z : ℤ) → lines (show_int z) ≡ 0) where
  lines-format_value : (d : Double F) → lines (format_value show_finite show_int d) ≡ 0
  unfolding format_value lines
  lines-format_value nan = refl
  lines-format_value plus_infinity = refl
  lines-format_value minus_infinity = refl
  lines-format_value (finite x) = one_line x

  lines-timestamp : (b : Bool) (z : ℤ) → lines (if b then space ∷ show_int z else []) ≡ 0
  unfolding lines
  lines-timestamp true z = omega (arith, int_line z)
  lines-timestamp false z = refl

  lines-write_sample :
      (config : Config) (x : Sample F) → lines (write_sample show_finite show_int config x) ≡ 1
  unfolding write_sample lines
  lines-write_sample config x =
      simp
        (lines-append, lines-metric_name, lines-write_labels, lines-format_value, lines-timestamp)

  lines-write_samples :
      (config : Config) (xs : List (Sample F))
      → lines (write_samples show_finite show_int config xs) ≡ length xs
  unfolding write_samples lines
  lines-write_samples config [] = refl
  lines-write_samples config (x ∷ xs) =
      lines-append (write_sample show_finite show_int config x) _
      ∙ omega (arith, lines-write_sample config x, lines-write_samples config xs)

  lines-type_text : (t : MetricType) → lines (type_text t) ≡ 0
  unfolding lines
  lines-type_text counter = refl
  lines-type_text gauge = refl
  lines-type_text untyped = refl

  lines-write_help :
      (config : Config) (f : MetricFamily F)
      → lines (write_help show_finite show_int config f)
        ≡ (if config.include_help && not (is_empty f.help) then 1 else 0)
  unfolding write_help lines
  lines-write_help config f = elim (Bool-cases (config.include_help && not (is_empty f.help))) [
    | inl h ↦ rw h (simp (lines-append, lines-metric_name, lines-escape_help))
    | inr h ↦ rw h refl
  ]

  lines-write_type :
      (config : Config) (f : MetricFamily F)
      → lines (write_type show_finite show_int config f) ≡ (if config.include_type then 1 else 0)
  unfolding write_type lines
  lines-write_type config f = elim (Bool-cases config.include_type) [
    | inl h ↦ rw h (simp (lines-append, lines-metric_name, lines-type_text))
    | inr h ↦ rw h refl
  ]

  -- Where the numbers print without a line end, a family takes one line for each sample, one for
  -- its type and one for a help text that is not empty (where the configuration asks for them),
  -- whatever bytes its names, help, labels and label values hold.
  pub lines-write_metric_family :
      (config : Config) (f : MetricFamily F)
      → lines (write_metric_family show_finite show_int config f)
        ≡ (if config.include_help && not (is_empty f.help) then 1 else 0)
          + (if config.include_type then 1 else 0)
          + length f.samples
  unfolding write_metric_family
  lines-write_metric_family config f =
      simp (lines-append, lines-write_help, lines-write_type, lines-write_samples)
