-- ===== src/Prometheus/Names.antt =====
-- PrometheusTextSerializer.hpp: names and label values.
use log_it_cpp.Base.{
  ℕ, suc, Option, none, some, ◌+◌, ◌≡◌, refl, sym, ap, ◌∙◌, Bool, true, false, ◌&&◌, [], ◌∷◌, ◌++◌,
  ◌==◌, if◌then◌else◌, arith, length, Bool-cases, ==_iff, inl, inr,
}
use log_it_cpp.Record.{Bytes}
use log_it_cpp.Prometheus.{
  newline, quote, backslash, letter_n, underscore, escape_label_value, metric_char, label_char,
  sanitize_from, never_empty, sanitize_metric_name, sanitize_label_name,
}

-- Every byte from index i on may stand in a name.
abbrev pub all_from : (ℕ → ℕ → Bool) → ℕ → Bytes → Bool
all_from keeps i [] = true
all_from keeps i (c ∷ name) = keeps i c && all_from keeps (i + 1) name

abbrev pub is_name : (ℕ → ℕ → Bool) → Bytes → Bool
is_name keeps [] = false
is_name keeps (c ∷ name) = all_from keeps 0 (c ∷ name)

module _ (keeps : ℕ → ℕ → Bool) (underscore_stays : (i : ℕ) → keeps i underscore ≡ true) where
  all-sanitize : (i : ℕ) (name : Bytes) → all_from keeps i (sanitize_from keeps i name) ≡ true
  unfolding sanitize_from
  all-sanitize i [] = refl
  all-sanitize i (c ∷ name) = elim (Bool-cases (keeps i c)) [
    | inl h ↦ rw (h, all-sanitize (i + 1) name, h) refl
    | inr h ↦ rw (h, all-sanitize (i + 1) name, underscore_stays i) refl
  ]

  sanitize-kept :
      (i : ℕ) (name : Bytes) → all_from keeps i name ≡ true → sanitize_from keeps i name ≡ name
  unfolding sanitize_from
  sanitize-kept i [] h = refl
  sanitize-kept i (c ∷ name) h = elim (Bool-cases (keeps i c)) [
    | inl k ↦ rw (k, sanitize-kept (i + 1) name (rest k)) refl
    | inr k ↦ absurd (none_left k)
  ]
    where
      rest : keeps i c ≡ true → all_from keeps (i + 1) name ≡ true
      rest k = ap (λ b. b && all_from keeps (i + 1) name) (sym k) ∙ h

      none_left : keeps i c ≡ false → ⊥
      none_left k = cc (sym (ap (λ b. b && all_from keeps (i + 1) name) k) ∙ h)

  length-sanitize : (i : ℕ) (name : Bytes) → length (sanitize_from keeps i name) ≡ length name
  unfolding sanitize_from
  length-sanitize i [] = refl
  length-sanitize i (c ∷ name) = ap suc (length-sanitize (i + 1) name)

  sanitized-is_name :
      (name : Bytes) → is_name keeps (never_empty (sanitize_from keeps 0 name)) ≡ true
  sanitized-is_name [] = unfold sanitize_from in rw (underscore_stays 0) refl
  sanitized-is_name (c ∷ name) = unfold sanitize_from in all-sanitize 0 (c ∷ name)

  name-sanitized :
      (name : Bytes) → is_name keeps name ≡ true → never_empty (sanitize_from keeps 0 name) ≡ name
  name-sanitized [] h = cc
  name-sanitized (c ∷ name) h = rw (sanitize-kept 0 (c ∷ name) h) refl

metric_underscore : (i : ℕ) → metric_char i underscore ≡ true
metric_underscore i = ground arith

label_underscore : (i : ℕ) → label_char i underscore ≡ true
label_underscore i = ground arith

-- A sanitized metric name is a metric name of the text format, and such a name is left as it is;
-- and so for label names.
sanitized_names :
    (name : Bytes)
    → (is_name metric_char (sanitize_metric_name name) ≡ true)
      × (is_name label_char (sanitize_label_name name) ≡ true)
      × (is_name metric_char name ≡ true → sanitize_metric_name name ≡ name)
      × (is_name label_char name ≡ true → sanitize_label_name name ≡ name)
unfolding sanitize_metric_name sanitize_label_name
sanitized_names name = (
  sanitized-is_name metric_char metric_underscore name,
  sanitized-is_name label_char label_underscore name,
  name-sanitized metric_char metric_underscore name,
  name-sanitized label_char label_underscore name,
)

abbrev pub put : ℕ → Option (Bytes × Bytes) → Option (Bytes × Bytes)
put c none = none
put c (some (t, rest)) = some (c ∷ t, rest)

-- A reader of the text format: the label value up to the closing quote, and what follows it. The
-- flag says that the byte before was a backslash that escapes.
pub read_value : Bool → Bytes → Option (Bytes × Bytes)
read_value escaped [] = none
read_value true (c ∷ t) = put (if c == letter_n then newline else c) (read_value false t)
read_value false (c ∷ t) =
    let rest = read_value false t in
    if c == quote then some ([], t) else if c == backslash then read_value true t else put c rest

read-escaped :
    (c : ℕ) (value rest : Bytes)
    → read_value false (escape_label_value value ++ quote ∷ rest) ≡ some (value, rest)
    → read_value false (escape_label_value (c ∷ value) ++ quote ∷ rest) ≡ some (c ∷ value, rest)
unfolding read_value escape_label_value
read-escaped c value rest h = elim (Bool-cases (c == backslash)) [
  | inl e ↦ rw (e, h) (ap (λ x. some (x ∷ value, rest)) (sym ((==_iff c backslash).0 e)))
  | inr e ↦ elim (Bool-cases (c == quote)) [
    | inl q ↦ rw (e, q, h) (ap (λ x. some (x ∷ value, rest)) (sym ((==_iff c quote).0 q)))
    | inr q ↦ elim (Bool-cases (c == newline)) [
      | inl n ↦ rw (e, q, n, h) (ap (λ x. some (x ∷ value, rest)) (sym ((==_iff c newline).0 n)))
      | inr n ↦ rw (e, q, n, e, q, h) refl
    ]
  ]
]

-- A reader that undoes the escapes finds every label value again, and the text after it.
read_value-escape_label_value :
    (value rest : Bytes)
    → read_value false (escape_label_value value ++ quote ∷ rest) ≡ some (value, rest)
read_value-escape_label_value [] rest = unfold read_value escape_label_value in refl
read_value-escape_label_value (c ∷ value) rest =
    read-escaped c value rest (read_value-escape_label_value value rest)

-- A sanitized metric or label name is a name of the text format, and such a name is left as it is;
-- a reader that undoes the escapes finds every label value again, and the text after its closing
-- quote.
pub names_and_values_lem :
    (name value rest : Bytes)
    → (is_name metric_char (sanitize_metric_name name) ≡ true)
      × (is_name label_char (sanitize_label_name name) ≡ true)
      × (is_name metric_char name ≡ true → sanitize_metric_name name ≡ name)
      × (is_name label_char name ≡ true → sanitize_label_name name ≡ name)
      × (read_value false (escape_label_value value ++ quote ∷ rest) ≡ some (value, rest))
names_and_values_lem name value rest =
    let (a, b, c, d) = sanitized_names name in
    (a, b, c, d, read_value-escape_label_value value rest)
