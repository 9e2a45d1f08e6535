-- ===== src/UniqueFile/Spelling.antt =====
-- UniqueFileLogger.hpp: the names of its files, and how it knows them.
use log_it_cpp.Base.{
  ℕ, zero, suc, ◌+◌, ◌-◌, Bool, true, false, ◌&&◌, ◌||◌, List, [], ◌∷◌, ◌++◌, ltb, leb, ◌==◌,
  if◌then◌else◌, drop, length,
}
use log_it_cpp.Base.Decimal.{show_nat, fill_left, is_digit}
use log_it_cpp.Record.{Bytes}
use log_it_cpp.Context.{text_eq}
use log_it_cpp.Otlp.Json.{bytes_eq}
use log_it_cpp.Format.Fields.{DateTime, two_digits}

-- The `n`th character of charset.
unfoldable pub hash_char : ℕ → ℕ
hash_char n = if ltb n 10 then b'0' + n else if ltb n 36 then b'A' + (n - 10) else b'a' + (n - 36)

unfoldable pub generate_fixed_length_hash : ℕ → List ℕ → Bytes
generate_fixed_length_hash zero draws = []
generate_fixed_length_hash (suc n) [] = []
generate_fixed_length_hash (suc n) (d ∷ draws) = hash_char d ∷ generate_fixed_length_hash n draws

-- "%lld-%.2d-%.2d_%.2d-%.2d-%.2d-%.3d"
unfoldable pub format_timestamp : DateTime → Bytes
format_timestamp dt =
    show_nat dt.year_
    ++ b'-'
      ∷ (two_digits dt.mon
          ++ b'-'
            ∷ (two_digits dt.day_
                ++ b'_'
                  ∷ (two_digits dt.hour_
                      ++ b'-'
                        ∷ (two_digits dt.min_
                            ++ b'-'
                              ∷ (two_digits dt.sec ++ b'-' ∷ fill_left b'0' 3 (show_nat dt.ms))))))

abbrev pub log_suffix : Bytes
log_suffix = b'.' ∷ b'l' ∷ b'o' ∷ b'g' ∷ []

unfoldable pub unique_name : DateTime → Bytes → Bytes
unique_name dt hash = format_timestamp dt ++ b'-' ∷ (hash ++ log_suffix)

-- The regular expression of is_valid_log_filename: digits and marks of a time and a '-', the
-- characters of a stem, the suffix.
pub data Shape : Type 0 where
  digit : Shape
  mark : ℕ → Shape

abbrev pub digits_then : ℕ → ℕ → List Shape → List Shape
digits_then zero c shapes = mark c ∷ shapes
digits_then (suc n) c shapes = digit ∷ digits_then n c shapes

abbrev pub time_shape : List Shape
time_shape = digits_then 4 b'-' (
    digits_then 2 b'-' (
      digits_then 2 b'_'
        (digits_then 2 b'-' (digits_then 2 b'-' (digits_then 2 b'-' (digits_then 3 b'-' []))))))

abbrev pub is_stem_char : ℕ → Bool
is_stem_char c =
    c == b'-' || c == b'_' || (leb b'A' c && leb c b'Z') || (leb b'a' c && leb c b'z') || is_digit c

abbrev pub gz_suffix : Bytes
gz_suffix = b'.' ∷ b'g' ∷ b'z' ∷ []

abbrev pub zst_suffix : Bytes
zst_suffix = b'.' ∷ b'z' ∷ b's' ∷ b't' ∷ []

abbrev pub is_suffix : Bytes → Bool
is_suffix t =
    text_eq t log_suffix
    || text_eq t (log_suffix ++ gz_suffix)
    || text_eq t (log_suffix ++ zst_suffix)

-- A stem of at least one character, of which `seen` tells, and the suffix.
unfoldable pub match_stem : Bool → Bytes → Bool
match_stem seen [] = false
match_stem seen (c ∷ t) =
    let more = match_stem true t in if is_stem_char c then more else seen && is_suffix (c ∷ t)

unfoldable pub match_shape : List Shape → Bytes → Bool
match_shape [] t = match_stem false t
match_shape (s ∷ shapes) [] = false
match_shape (digit ∷ shapes) (c ∷ t) = is_digit c && match_shape shapes t
match_shape (mark d ∷ shapes) (c ∷ t) = c == d && match_shape shapes t

unfoldable pub is_valid_log_filename : Bytes → Bool
is_valid_log_filename name = match_shape time_shape name

unfoldable pub ends_with : Bytes → Bytes → Bool
ends_with value suffix =
    leb (length suffix) (length value) && text_eq (drop (length value - length suffix) value) suffix

unfoldable pub is_compressed_log_filename : Bytes → Bool
is_compressed_log_filename name = ends_with name gz_suffix || ends_with name zst_suffix
