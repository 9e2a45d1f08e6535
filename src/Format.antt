-- ===== src/Format.antt =====
-- formatter/compiler/PatternCompiler.hpp, the end of FormatInstruction::apply: escape codes, width
-- and alignment of one field. The text of the field is an argument; the compiler reads the width
-- from digits, so it is a natural number, below 2^31. Sizes are counted in bytes, as in the source.
pub mod Width
pub mod Ansi
pub mod Pattern
pub mod Colors
pub mod Values
pub mod Fields
pub mod Formatter
mod Tests
use log_it_cpp.Base.{
  ℕ, zero, suc, ◌+◌, ◌-◌, ◌*◌, ◌/◌, Bool, true, false, ◌&&◌, ◌||◌, not, List, [], ◌∷◌, ◌++◌, ltb,
  leb, ◌==◌, if◌then◌else◌, length, take, drop, replicate, min,
}
use log_it_cpp.Record.{Bytes}

abbrev pub is_letter : ℕ → Bool
is_letter c = (leb 97 c && leb c 122) || (leb 65 c && leb c 90)

-- The loop of remove_ansi_escape_codes, with in_escape_sequence. 27 is '\033' and 91 is '['.
pub strip_from : Bool → Bytes → Bytes
strip_from in_sequence [] = []
strip_from true (c ∷ input) = strip_from (not (is_letter c)) input
strip_from false (c ∷ []) = c ∷ []
strip_from false (c ∷ d ∷ input) =
    let after_code = strip_from true input in
    let rest = strip_from false (d ∷ input) in if c == 27 && d == 91 then after_code else c ∷ rest

pub remove_ansi_escape_codes : Bytes → Bytes
remove_ansi_escape_codes input = strip_from false input

-- The loop `while (line_size < width)`, which runs at most `fuel` times; it gives keep_end.
pub widen : ℕ → ℕ → ℕ → ℕ → ℕ
widen zero width keep_end line_size = keep_end
widen (suc fuel) width keep_end line_size =
    let rest = widen fuel width (keep_end - 1) (line_size + 1) in
    if ltb line_size width && ltb 0 keep_end then rest else keep_end

abbrev pub placeholder : Bytes
placeholder = 46 ∷ 46 ∷ 46 ∷ []

-- The case of file and function names. The loop makes up at most one byte.
pub truncate_middle : ℕ → Bytes → Bytes
truncate_middle width text =
    if leb width 3
    then take width placeholder
    else let keep_size = (width - 3) / 2 in
      let keep_end = widen width width (length text - keep_size) (2 * keep_size + 3) in
      take keep_size text ++ placeholder ++ drop keep_end text

-- `is_name` says that the type is one of FileName, FullFileName, SourceFileAndLine, FunctionName.
pub truncate_text : Bool → Bool → ℕ → Bytes → Bytes
truncate_text truncate is_name width text =
    if truncate && ltb width (length text)
    then if is_name then truncate_middle width text else take width text
    else text

pub data Alignment : Type 0 where
  left center right : Alignment

abbrev pub spaces : ℕ → Bytes
spaces n = replicate n 32

pub pad : Alignment → ℕ → Bytes → Bytes
pad left width text = text ++ spaces (width - length text)
pad center width text =
    let padding = (width - length text) / 2 in
    spaces padding ++ text ++ spaces (width - padding - length text)
pad right width text = spaces (width - length text) ++ text

pub align : Alignment → ℕ → Bytes → Bytes
align alignment width text =
    if ltb 0 width && ltb (length text) width then pad alignment width text else text

-- The field as `apply` writes it.
pub write_field : Bool → Bool → Bool → Alignment → ℕ → Bytes → Bytes
write_field strip_ansi truncate is_name alignment width text = align alignment width (
    truncate_text truncate is_name width
      (if strip_ansi then remove_ansi_escape_codes text else text))
