-- ===== src/Prometheus.antt =====
-- loggers/prometheus/PrometheusTextFormatConfig.hpp and PrometheusTextSerializer.hpp: metric
-- families as text. A text is its bytes; what is written to the stream is the text returned.
-- `std::isalpha` and `std::isalnum` are those of the C locale. A `double` that is not NaN or
-- infinite is a value of a type `F`; how the stream prints it and an `int64_t` are parameters.
pub mod Lines
pub mod Names
pub mod Registry
mod Tests
use log_it_cpp.Base.{
  ℕ, ◌+◌, Bool, true, false, ◌&&◌, ◌||◌, not, List, [], ◌∷◌, ◌++◌, ltb, leb, ◌==◌, if◌then◌else◌,
}
use log_it_cpp.Base.Ints.{ℤ, pos, negsuc}
use log_it_cpp.Record.{Bytes}

pub data MetricType : Type 0 where
  counter gauge untyped : MetricType

pub record Label : Type 0 where
  pub name : Bytes
  pub value : Bytes

pub data Double (F : Type 0) : Type 0 where
  nan : Double F
  plus_infinity : Double F
  minus_infinity : Double F
  finite : F → Double F

pub record Sample (F : Type 0) : Type 0 where
  pub name : Bytes
  pub value : Double F
  pub labels : List Label
  pub timestamp_ms : ℤ

pub record MetricFamily (F : Type 0) : Type 0 where
  pub name : Bytes
  pub help : Bytes
  pub type_ : MetricType
  pub samples : List (Sample F)

-- The fields that the serializer reads.
pub record Config : Type 0 where
  pub include_help : Bool
  pub include_type : Bool
  pub include_timestamp : Bool
  pub const_labels : List Label

abbrev pub newline : ℕ
newline = 10

abbrev pub space : ℕ
space = 32

abbrev pub quote : ℕ
quote = 34

abbrev pub backslash : ℕ
backslash = 92

abbrev pub letter_n : ℕ
letter_n = 110

abbrev pub underscore : ℕ
underscore = 95

abbrev pub colon : ℕ
colon = 58

pub escape_help : Bytes → Bytes
escape_help [] = []
escape_help (c ∷ value) =
    (if c == backslash
      then backslash ∷ backslash ∷ []
      else if c == newline
      then backslash ∷ letter_n ∷ []
      else c ∷ [])
    ++ escape_help value

pub escape_label_value : Bytes → Bytes
escape_label_value [] = []
escape_label_value (c ∷ value) =
    (if c == backslash
      then backslash ∷ backslash ∷ []
      else if c == quote
      then backslash ∷ quote ∷ []
      else if c == newline
      then backslash ∷ letter_n ∷ []
      else c ∷ [])
    ++ escape_label_value value

abbrev pub is_alpha : ℕ → Bool
is_alpha c = (leb 65 c && leb c 90) || (leb 97 c && leb c 122)

abbrev pub is_alnum : ℕ → Bool
is_alnum c = is_alpha c || (leb 48 c && leb c 57)

-- May the byte at index i stay?
abbrev pub metric_char : ℕ → ℕ → Bool
metric_char i c = (if i == 0 then is_alpha c else is_alnum c) || c == underscore || c == colon

abbrev pub label_char : ℕ → ℕ → Bool
label_char i c = (if i == 0 then is_alpha c else is_alnum c) || c == underscore

-- The loop of both sanitizers, from index i.
pub sanitize_from : (ℕ → ℕ → Bool) → ℕ → Bytes → Bytes
sanitize_from keeps i [] = []
sanitize_from keeps i (c ∷ name) =
    (if keeps i c then c else underscore) ∷ sanitize_from keeps (i + 1) name

-- `if (out.empty()) out = "_";`
abbrev pub never_empty : Bytes → Bytes
never_empty [] = underscore ∷ []
never_empty (c ∷ out) = c ∷ out

pub sanitize_metric_name : Bytes → Bytes
sanitize_metric_name name = never_empty (sanitize_from metric_char 0 name)

pub sanitize_label_name : Bytes → Bytes
sanitize_label_name name = never_empty (sanitize_from label_char 0 name)

abbrev pub type_text : MetricType → Bytes
type_text counter = 99 ∷ 111 ∷ 117 ∷ 110 ∷ 116 ∷ 101 ∷ 114 ∷ []
type_text gauge = 103 ∷ 97 ∷ 117 ∷ 103 ∷ 101 ∷ []
type_text untyped = 117 ∷ 110 ∷ 116 ∷ 121 ∷ 112 ∷ 101 ∷ 100 ∷ []

-- "# HELP " and "# TYPE ".
abbrev pub help_word : Bytes
help_word = 35 ∷ 32 ∷ 72 ∷ 69 ∷ 76 ∷ 80 ∷ 32 ∷ []

abbrev pub type_word : Bytes
type_word = 35 ∷ 32 ∷ 84 ∷ 89 ∷ 80 ∷ 69 ∷ 32 ∷ []

abbrev pub is_empty {ℓ} : {A : Type ℓ} → List A → Bool
is_empty [] = true
is_empty (x ∷ xs) = false

pub write_label : Label → Bytes
write_label l = sanitize_label_name l.name ++ 61 ∷ quote ∷ escape_label_value l.value ++ quote ∷ []

-- The loop over the merged labels, with a comma before each but the first.
pub write_labels_from : ℕ → List Label → Bytes
write_labels_from i [] = []
write_labels_from i (l ∷ ls) =
    (if i == 0 then [] else 44 ∷ []) ++ write_label l ++ write_labels_from (i + 1) ls

pub write_labels : List Label → Bytes
write_labels merged = if is_empty merged then [] else 123 ∷ write_labels_from 0 merged ++ 125 ∷ []

module _ {F : Type 0} (show_finite : F → Bytes) (show_int : ℤ → Bytes) where
  pub format_value : Double F → Bytes
  format_value nan = 78 ∷ 97 ∷ 78 ∷ []
  format_value plus_infinity = 43 ∷ 73 ∷ 110 ∷ 102 ∷ []
  format_value minus_infinity = 45 ∷ 73 ∷ 110 ∷ 102 ∷ []
  format_value (finite x) = show_finite x

  abbrev pub is_zero : ℤ → Bool
  is_zero (pos n) = n == 0
  is_zero (negsuc n) = false

  pub write_sample : Config → Sample F → Bytes
  write_sample config sample =
      sanitize_metric_name sample.name
      ++ write_labels (config.const_labels ++ sample.labels)
      ++ space ∷ format_value sample.value
      ++ (if config.include_timestamp && not (is_zero sample.timestamp_ms)
          then space ∷ show_int sample.timestamp_ms
          else [])
      ++ newline ∷ []

  pub write_samples : Config → List (Sample F) → Bytes
  write_samples config [] = []
  write_samples config (x ∷ xs) = write_sample config x ++ write_samples config xs

  pub write_help : Config → MetricFamily F → Bytes
  write_help config family =
      if config.include_help && not (is_empty family.help)
      then help_word
        ++ sanitize_metric_name family.name
        ++ space ∷ escape_help family.help
        ++ newline ∷ []
      else []

  pub write_type : Config → MetricFamily F → Bytes
  write_type config family =
      if config.include_type
      then type_word
        ++ sanitize_metric_name family.name
        ++ space ∷ type_text family.type_
        ++ newline ∷ []
      else []

  pub write_metric_family : Config → MetricFamily F → Bytes
  write_metric_family config family =
      write_help config family ++ write_type config family ++ write_samples config family.samples

  pub build_payload : Config → List (MetricFamily F) → Bytes
  build_payload config [] = []
  build_payload config (f ∷ fs) = write_metric_family config f ++ build_payload config fs
