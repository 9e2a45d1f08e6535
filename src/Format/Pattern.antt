-- ===== src/Format/Pattern.antt =====
-- formatter/compiler/PatternCompiler.hpp: FormatInstruction and PatternCompiler::compile. A pattern is
-- read from the front, so an index into it is the text that is left. A round of the loop costs one
-- unit of fuel, and a nested pattern is compiled with what is left of it. The width stays below 2^31.
pub mod Fuel
pub mod Print
pub mod Options
pub mod Directives
pub mod RoundTrip
mod Tests
use log_it_cpp.Base.{
  ℕ, zero, suc, ◌+◌, ◌-◌, ◌*◌, Bool, true, false, ◌&&◌, ◌||◌, not, Option, none, some, List, [],
  ◌∷◌, ◌++◌, leb, ◌==◌, if◌then◌else◌, length,
}
use log_it_cpp.Record.{Bytes}

pub data CompileContext : Type 0 where
  default no_args_fallback : CompileContext

pub data FormatType : Type 0 where
  static_text : FormatType
  year month day hour minute second millisecond two_digit_year date_time short_date time_iso8601
        date_iso8601 :
      FormatType
  time_stamp milli_second_time_stamp : FormatType
  abbreviated_month_name full_month_name abbreviated_weekday_name full_weekday_name : FormatType
  log_level short_log_level : FormatType
  file_name full_file_name source_file_and_line line_number function_name : FormatType
  thread_id : FormatType
  mapped_diagnostic_context mapped_diagnostic_context_value nested_diagnostic_context : FormatType
  start_color end_color : FormatType
  message : FormatType

pub record Flags : Type 0 where
  pub width : ℕ
  pub left_align : Bool
  pub center_align : Bool
  pub truncate : Bool

-- `text` is the field static_text.
pub record FormatInstruction : Type 0 where
  pub context : CompileContext
  pub type_ : FormatType
  pub text : Bytes
  pub flags : Flags
  pub strip_ansi : Bool
  pub context_key : Bytes

abbrev pub no_flags : Flags
no_flags = record { width = 0; left_align = false; center_align = false; truncate = false }

-- The two constructors of FormatInstruction.
abbrev pub text_instruction : CompileContext → Bytes → Bool → FormatInstruction
text_instruction context text strip = record {
  context = context;
  type_ = static_text;
  text = text;
  flags = no_flags;
  strip_ansi = strip;
  context_key = [];
}

abbrev pub instruction : CompileContext → FormatType → Flags → Bool → Bytes → FormatInstruction
instruction context type_ flags strip key = record {
  context = context;
  type_ = type_;
  text = [];
  flags = flags;
  strip_ansi = strip;
  context_key = key;
}

abbrev pub is_digit : ℕ → Bool
is_digit c = leb 48 c && leb c 57

abbrev pub is_flag : ℕ → Bool
is_flag c = is_digit c || c == b'-' || c == b'='

abbrev pub add_flag : Flags → ℕ → Flags
add_flag f c =
    if c == b'-'
    then record f { left_align = true }
    else if c == b'='
    then record f { center_align = true }
    else record f { width = f.width * 10 + (c - 48) }

-- Does the text begin with the byte?
abbrev pub starts : ℕ → Bytes → Bool
starts c [] = false
starts c (d ∷ t) = d == c

abbrev pub tail : Bytes → Bytes
tail [] = []
tail (d ∷ t) = t

-- The loop that reads alignment, width and truncation, with the text it leaves.
pub read_flags : Flags → Bytes → Flags × Bytes
read_flags f [] = (f, [])
read_flags f (c ∷ t) =
    let g = add_flag f c in
    let more = read_flags g t in
    if not (is_flag c)
    then (f, c ∷ t)
    else if starts b'!' t
    then (record g { truncate = true }, tail t)
    else more

abbrev pub put_before : ℕ → Option (Bytes × Bytes) → Option (Bytes × Bytes)
put_before d none = none
put_before d (some (before, after)) = some (d ∷ before, after)

-- `pattern.find`: the text before the byte and the text after it.
pub split_at_byte : ℕ → Bytes → Option (Bytes × Bytes)
split_at_byte c [] = none
split_at_byte c (d ∷ t) =
    let rest = put_before d (split_at_byte c t) in if d == c then some ([], t) else rest

-- What one case of the switch does, with the text it leaves: an instruction with the flags that were
-- read or without them, a change of strip_ansi, a nested pattern, nothing, or a byte of text.
pub data Directive : Type 0 where
  emits : FormatType → Bytes → Bytes → Directive
  emits_color : FormatType → Bytes → Directive
  strips : Bool → Bytes → Directive
  nests : Bytes → Bytes → Directive
  skips : Bytes → Directive
  writes : ℕ → Bytes → Directive

pub context_value : Bytes → Option (Bytes × Bytes) → Directive
context_value t none = emits mapped_diagnostic_context [] t
context_value t (some (key, after)) = emits mapped_diagnostic_context_value key after

pub nested_pattern : Bytes → Option (Bytes × Bytes) → Directive
nested_pattern t none = skips (tail t)
nested_pattern t (some (params, after)) = nests params after

-- The switch, from the byte after the flags on.
pub directive : ℕ → Bytes → Directive
directive c t =
    if c == b'Y'
    then emits year [] t
    else if c == b'm'
    then (if starts b's' t then emits milli_second_time_stamp [] (tail t) else emits month [] t)
    else if c == b'd'
    then emits day [] t
    else if c == b'H'
    then emits hour [] t
    else if c == b'M'
    then emits minute [] t
    else if c == b'S'
    then (if starts b'C' t then strips true (tail t) else emits second [] t)
    else if c == b'e'
    then (if starts b'c' t then strips false (tail t) else emits millisecond [] t)
    else if c == b'C'
    then emits two_digit_year [] t
    else if c == b'c'
    then emits date_time [] t
    else if c == b'D'
    then emits short_date [] t
    else if c == b'T' || c == b'X'
    then emits time_iso8601 [] t
    else if c == b'F'
    then emits date_iso8601 [] t
    else if c == b's'
    then (if starts b'c' t then strips true (tail t) else emits time_stamp [] t)
    else if c == b'E'
    then (if starts b'C' t then strips false (tail t) else emits time_stamp [] t)
    else if c == b'b'
    then (if starts b's' t then emits file_name [] (tail t) else emits abbreviated_month_name [] t)
    else if c == b'B'
    then emits full_month_name [] t
    else if c == b'a'
    then emits abbreviated_weekday_name [] t
    else if c == b'A'
    then emits full_weekday_name [] t
    else if c == b'l'
    then emits log_level [] t
    else if c == b'L'
    then emits short_log_level [] t
    else if c == b't'
    then emits thread_id [] t
    else if c == b'K'
    then (if starts b'{' t
        then context_value t (split_at_byte b'}' (tail t))
        else emits mapped_diagnostic_context [] t)
    else if c == b'J'
    then emits nested_diagnostic_context [] t
    else if c == b'f'
    then (if starts b'f' t && starts b'n' (tail t)
        then emits full_file_name [] (tail (tail t))
        else if starts b'n' t
        then emits file_name [] (tail t)
        else emits file_name [] t)
    else if c == b'g'
    then emits full_file_name [] t
    else if c == b'@'
    then emits source_file_and_line [] t
    else if c == b'#'
    then emits line_number [] t
    else if c == b'!'
    then emits function_name [] t
    else if c == b'^'
    then emits_color start_color t
    else if c == b'$'
    then emits_color end_color t
    else if c == b'v'
    then emits message [] t
    else if c == b'N'
    then (if starts b'(' t && leb 2 (length t)
        then nested_pattern t (split_at_byte b')' (tail t))
        else skips t)
    else writes c t

abbrev pub flush : CompileContext → Bytes → Bool → List FormatInstruction
flush context [] strip = []
flush context (c ∷ buffer) strip = text_instruction context (c ∷ buffer) strip ∷ []

-- Lists of instructions one after the other, unless the fuel ran out in one of them.
abbrev pub both_lists :
    Option (List FormatInstruction)
    → Option (List FormatInstruction)
    → Option (List FormatInstruction)
both_lists none rest = none
both_lists (some first) none = none
both_lists (some first) (some rest) = some (first ++ rest)

-- `again` goes on with the loop, from a text, a buffer and strip_ansi; `nested` compiles the pattern
-- of `%N(...)`.
pub run_directive :
    (Bytes → Bytes → Bool → Option (List FormatInstruction))
    → (Bytes → Option (List FormatInstruction))
    → CompileContext
    → Flags
    → Bool
    → Directive
    → Option (List FormatInstruction)
run_directive again nested context f strip (emits type_ key t) =
    both_lists (some (instruction context type_ f strip key ∷ [])) (again t [] strip)
run_directive again nested context f strip (emits_color type_ t) =
    both_lists (some (instruction context type_ no_flags strip [] ∷ [])) (again t [] strip)
run_directive again nested context f strip (strips b t) = again t [] b
run_directive again nested context f strip (nests params t) =
    both_lists (nested params) (again t [] strip)
run_directive again nested context f strip (skips t) = again t [] strip
run_directive again nested context f strip (writes c t) = again t (c ∷ []) strip

-- After the flags: nothing more when the pattern ends.
pub after_flags :
    (Bytes → Bytes → Bool → Option (List FormatInstruction))
    → (Bytes → Option (List FormatInstruction))
    → CompileContext
    → Bool
    → Flags × Bytes
    → Option (List FormatInstruction)
after_flags again nested context strip (f, []) = some []
after_flags again nested context strip (f, c ∷ t) =
    run_directive again nested context f strip (directive c t)

-- The loop, with `buffer` and `strip_ansi`.
pub compile_loop : ℕ → CompileContext → Bytes → Bytes → Bool → Option (List FormatInstruction)
compile_loop fuel context [] buffer strip = some (flush context buffer strip)
compile_loop zero context (c ∷ t) buffer strip = none
compile_loop (suc fuel) context (c ∷ t) buffer strip =
    let text = compile_loop fuel context t (buffer ++ c ∷ []) strip in
    let field = both_lists (some (flush context buffer strip)) (
      after_flags (compile_loop fuel context)
        (λ params. compile_loop fuel no_args_fallback params [] false) context strip
        (read_flags no_flags t)) in
    if c == b'%' then field else text

pub compile : Bytes → CompileContext → Option (List FormatInstruction)
compile pattern context = compile_loop (suc (length pattern)) context pattern [] false
