-- ===== src/Prometheus/Tests.antt =====
-- Concrete metrics. A finite value is a number from 0 to 9, printed as its digit.
use log_it_cpp.Base.{
  ℕ, ◌+◌, ◌≡◌, refl, true, false, ◌&&◌, not, List, [], ◌∷◌, ◌++◌, some, ◌⊎◌, inl, inr,
  if◌then◌else◌, arith, length, ◌==◌, leb,
}
use log_it_cpp.Base.Ints.{ℤ, pos}
use log_it_cpp.Record.{Bytes}
use log_it_cpp.Prometheus.{
  gauge, Label, Double, finite, MetricFamily, Config, quote, is_empty, metric_char, label_char,
  sanitize_metric_name, sanitize_label_name, sanitize_from, escape_label_value, write_metric_family,
  write_label,
}
use log_it_cpp.Prometheus.Lines.{lines, lines-write_metric_family}
use log_it_cpp.Prometheus.Names.{is_name, names_and_values_lem, read_value}
use log_it_cpp.Prometheus.Registry.{Entry, Registry, set_metric, collect}
use log_it_cpp.Prometheus.Registry.Collect.{
  samples_in, expected, samples-collect, has_key, find_entry, find_entry-set_metric,
}

abbrev show_digit : ℕ → Bytes
show_digit n = if leb n 9 then (48 + n) ∷ [] else 48 ∷ []

show_digit_line : (n : ℕ) → lines (show_digit n) ≡ 0
unfolding lines
show_digit_line n = ground arith

abbrev show_zero : ℤ → Bytes
show_zero z = 48 ∷ []

show_zero_line : (z : ℤ) → lines (show_zero z) ≡ 0
unfolding lines
show_zero_line z = refl

-- A help text and a label with line ends, quotes and backslashes.
abbrev queue_label : Label
queue_label = record { name = 57 ∷ 97 ∷ []; value = 34 ∷ 10 ∷ 92 ∷ 97 ∷ [] }

abbrev queue_family : MetricFamily ℕ
queue_family = record {
  name = 113 ∷ 45 ∷ 49 ∷ [];
  help = 97 ∷ 10 ∷ 98 ∷ [];
  type_ = gauge;
  samples =
      record { name = 113 ∷ []; value = finite 3; labels = queue_label ∷ []; timestamp_ms = pos 5 }
      ∷ [];
}

abbrev all_on : Config
all_on = record {
  include_help = true;
  include_type = true;
  include_timestamp = true;
  const_labels = queue_label ∷ [];
}

label_test :
    write_label queue_label ≡ 95 ∷ 97 ∷ 61 ∷ 34 ∷ 92 ∷ 34 ∷ 92 ∷ 110 ∷ 92 ∷ 92 ∷ 97 ∷ 34 ∷ []
unfolding write_label sanitize_label_name sanitize_from escape_label_value
label_test = refl

lines-write_metric_family_test :
    lines (write_metric_family show_digit show_zero all_on queue_family)
    ≡ (if all_on.include_help && not (is_empty queue_family.help) then 1 else 0)
      + (if all_on.include_type then 1 else 0)
      + length queue_family.samples
lines-write_metric_family_test =
    lines-write_metric_family show_digit show_zero show_digit_line show_zero_line all_on
      queue_family

names_and_values_lem_test :
    (is_name metric_char (sanitize_metric_name (57 ∷ 58 ∷ 45 ∷ [])) ≡ true)
    × (is_name label_char (sanitize_label_name (57 ∷ 58 ∷ 45 ∷ [])) ≡ true)
    × (is_name metric_char (57 ∷ 58 ∷ 45 ∷ []) ≡ true
        → sanitize_metric_name (57 ∷ 58 ∷ 45 ∷ []) ≡ 57 ∷ 58 ∷ 45 ∷ [])
    × (is_name label_char (57 ∷ 58 ∷ 45 ∷ []) ≡ true
        → sanitize_label_name (57 ∷ 58 ∷ 45 ∷ []) ≡ 57 ∷ 58 ∷ 45 ∷ [])
    × (read_value false (escape_label_value (34 ∷ 10 ∷ 92 ∷ 97 ∷ []) ++ quote ∷ 44 ∷ [])
        ≡ some (34 ∷ 10 ∷ 92 ∷ 97 ∷ [], 44 ∷ []))
names_and_values_lem_test =
    names_and_values_lem (57 ∷ 58 ∷ 45 ∷ []) (34 ∷ 10 ∷ 92 ∷ 97 ∷ []) (44 ∷ [])

abbrev metric : ℕ → ℕ → List Label → Entry ℕ
metric c fn ls = record { type_ = gauge; name = c ∷ []; help = []; value_fn = fn; labels = ls }

-- The callback 0 throws the exception 7.
abbrev call : ℕ → Double ℕ ⊎ ℕ
call n = if n == 0 then inr 7 else inl (finite n)

abbrev two_names : Registry ℕ
two_names = record {
  metric_prefix = 112 ∷ [];
  entries =
      metric 97 1 []
      ∷ metric 98 2 []
      ∷ metric 97 0 (queue_label ∷ [])
      ∷ metric 97 3 (queue_label ∷ queue_label ∷ [])
      ∷ [];
}

samples-collect_example :
    samples_in (collect call two_names []).0 (112 ∷ 97 ∷ []) gauge
    ≡ expected call two_names.metric_prefix two_names.entries (112 ∷ 97 ∷ []) gauge
samples-collect_example = samples-collect call two_names (112 ∷ 97 ∷ []) gauge

find_entry-set_metric_test :
    find_entry (set_metric two_names (metric 97 9 [])).entries (97 ∷ []) [] ≡ (
      if has_key (97 ∷ []) [] (metric 97 9 [])
      then some (metric 97 9 [])
      else find_entry two_names.entries (97 ∷ []) [])
find_entry-set_metric_test = find_entry-set_metric two_names (metric 97 9 []) (97 ∷ []) []
