-- ===== src/UniqueFile/Names.antt =====
-- UniqueFileLogger.hpp: the names of its files.
use log_it_cpp.Base.{
  ℕ, zero, suc, ◌≤◌, ◌<◌, ◌≡◌, refl, ap, ◌∙◌, true, false, List, [], ◌∷◌, ◌++◌, append_assoc, ltb,
  all, and_parts, length, arith,
}
use log_it_cpp.Base.Ints.{ℤ}
use log_it_cpp.Base.Decimal.{
  show_nat, fill_left, is_digit, fill_left-digits, digits-decimal, length-decimal_le,
  length-decimal_gt,
}
use log_it_cpp.Record.{Bytes}
use log_it_cpp.Context.{text_eq}
use log_it_cpp.Format.Fields.{DateTime, two_digits}
use log_it_cpp.UniqueFile.{Config, Outside, create_unique_name}
use log_it_cpp.UniqueFile.Spelling.{
  hash_char, generate_fixed_length_hash, format_timestamp, log_suffix, unique_name, Shape,
  digits_then, time_shape, is_stem_char, match_stem, match_shape, is_valid_log_filename,
}

-- Digits and the mark after them.
match-digits :
    (n c : ℕ) (shapes : List Shape) (xs t : Bytes)
    → length xs ≡ n
    → all is_digit xs ≡ true
    → match_shape (digits_then n c shapes) (xs ++ c ∷ t) ≡ match_shape shapes t
unfolding match_shape
match-digits zero c shapes [] t h k = ground arith
match-digits (suc n) c shapes [] t h k = absurd (omega (arith, h))
match-digits zero c shapes (x ∷ xs) t h k = absurd (omega (arith, h))
match-digits (suc n) c shapes (x ∷ xs) t h k =
    let p = and_parts (is_digit x) (all is_digit xs) k in
    rw (p.0) (match-digits n c shapes xs t (omega (arith, h)) p.1)

match_stem-seen :
    (hash : Bytes) → all is_stem_char hash ≡ true → match_stem true (hash ++ log_suffix) ≡ true
unfolding match_stem text_eq
match_stem-seen [] h = refl
match_stem-seen (c ∷ hash) h =
    let p = and_parts (is_stem_char c) (all is_stem_char hash) h in
    rw (p.0) (match_stem-seen hash p.1)

match_stem-hash :
    (hash : Bytes)
    → 0 < length hash
    → all is_stem_char hash ≡ true
    → match_stem false (hash ++ log_suffix) ≡ true
unfolding match_stem
match_stem-hash [] k h = absurd (omega (arith, k))
match_stem-hash (c ∷ hash) k h =
    let p = and_parts (is_stem_char c) (all is_stem_char hash) h in
    rw (p.0) (match_stem-seen hash p.1)

hash_char_lem : (d : ℕ) → ltb d 62 ≡ true → is_stem_char (hash_char d) ≡ true
unfolding hash_char
hash_char_lem d h = ground (arith, h)

hash-stem :
    (n : ℕ) (draws : List ℕ)
    → all (λ d. ltb d 62) draws ≡ true
    → all is_stem_char (generate_fixed_length_hash n draws) ≡ true
unfolding generate_fixed_length_hash
hash-stem zero draws h = refl
hash-stem (suc n) [] h = refl
hash-stem (suc n) (d ∷ draws) h =
    let p = and_parts (ltb d 62) (all (λ d. ltb d 62) draws) h in
    rw (hash_char_lem d p.0) (hash-stem n draws p.1)

length-hash :
    (n : ℕ) (draws : List ℕ) → n ≤ length draws → length (generate_fixed_length_hash n draws) ≡ n
unfolding generate_fixed_length_hash
length-hash zero draws h = refl
length-hash (suc n) [] h = absurd (omega (arith, h))
length-hash (suc n) (d ∷ draws) h = ap suc (length-hash n draws (omega (arith, h)))

match_shape-nil : (t : Bytes) → match_shape [] t ≡ match_stem false t
unfolding match_shape
match_shape-nil t = refl

-- A time with a year of four digits.
abbrev pub IsUsual : DateTime → Type 0
IsUsual dt =
    (1000 ≤ dt.year_)
    × (dt.year_ < 10000)
    × (dt.mon < 100)
    × (dt.day_ < 100)
    × (dt.hour_ < 100)
    × (dt.min_ < 100)
    × (dt.sec < 100)
    × (dt.ms < 1000)

year-digits :
    (n : ℕ) → 1000 ≤ n → n < 10000 → (length (show_nat n) ≡ 4) × (all is_digit (show_nat n) ≡ true)
year-digits n h k = (
  omega (arith, length-decimal_le 3 (suc n) n k, length-decimal_gt 3 (suc n) n h (omega arith)),
  digits-decimal (suc n) n,
)

two :
    (n c : ℕ) (shapes : List Shape) (t : Bytes)
    → n < 100
    → match_shape (digits_then 2 c shapes) (two_digits n ++ c ∷ t) ≡ match_shape shapes t
two n c shapes t h =
    let d = fill_left-digits 1 n h in match-digits 2 c shapes (two_digits n) t d.0 d.1

unique_name-valid :
    (dt : DateTime) (hash : Bytes)
    → IsUsual dt
    → 0 < length hash
    → all is_stem_char hash ≡ true
    → is_valid_log_filename (unique_name dt hash) ≡ true
unfolding is_valid_log_filename unique_name format_timestamp
unique_name-valid dt hash u k h =
    let y = year-digits dt.year_ u.0 u.1 in
    let m = fill_left-digits 2 dt.ms u.7 in
    ap (match_shape time_shape) regroup
    ∙ match-digits 4 b'-' _ (show_nat dt.year_) _ y.0 y.1
    ∙ two dt.mon b'-' _ _ u.2
    ∙ two dt.day_ b'_' _ _ u.3
    ∙ two dt.hour_ b'-' _ _ u.4
    ∙ two dt.min_ b'-' _ _ u.5
    ∙ two dt.sec b'-' _ _ u.6
    ∙ match-digits 3 b'-' _ (fill_left b'0' 3 (show_nat dt.ms)) _ m.0 m.1
    ∙ match_shape-nil (hash ++ log_suffix)
    ∙ match_stem-hash hash k h
  where
    regroup :
        format_timestamp dt ++ b'-' ∷ (hash ++ log_suffix)
        ≡ show_nat dt.year_
          ++ b'-'
            ∷ (two_digits dt.mon
                ++ b'-'
                  ∷ (two_digits dt.day_
                      ++ b'_'
                        ∷ (two_digits dt.hour_
                            ++ b'-'
                              ∷ (two_digits dt.min_
                                  ++ b'-'
                                    ∷ (two_digits dt.sec
                                        ++ b'-'
                                          ∷ (fill_left b'0' 3 (show_nat dt.ms)
                                              ++ b'-' ∷ (hash ++ log_suffix)))))))
    regroup = simp append_assoc

-- With a hash length that is not zero, as many random numbers from 0 to 61 and a time with a year of
-- four digits, the logger takes the name that it gives a file for one of its own.
pub create_unique_name-valid :
    (date_of : ℤ → DateTime) (ts : Bytes → ℤ) (config : Config) (o : Outside) (timestamp_ms : ℤ)
    → IsUsual (date_of timestamp_ms)
    → 0 < config.hash_length
    → config.hash_length ≤ length o.draws
    → all (λ d. ltb d 62) o.draws ≡ true
    → is_valid_log_filename (create_unique_name date_of ts config o timestamp_ms) ≡ true
unfolding create_unique_name
create_unique_name-valid date_of ts config o timestamp_ms u k l h =
    let n = length-hash config.hash_length o.draws l in
    unique_name-valid (date_of timestamp_ms) (generate_fixed_length_hash config.hash_length o.draws)
      u (omega (arith, n, k)) (hash-stem config.hash_length o.draws h)
