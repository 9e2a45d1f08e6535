-- ===== src/Format/Pattern/Directives.antt =====
-- PatternCompiler::compile: the directives of a layout, read from their spelling.
use log_it_cpp.Base.{
  ℕ, suc, ◌≡◌, refl, Bool, true, false, not, Option, some, List, [], ◌∷◌, ◌++◌, leb, ◌==◌, length,
  length-append, all, arith,
}
use log_it_cpp.Record.{Bytes}
use log_it_cpp.Format.Pattern.{
  CompileContext, FormatType, mapped_diagnostic_context_value, FormatInstruction, Flags,
  instruction, starts, split_at_byte, context_value, nested_pattern, directive, both_lists,
  run_directive, after_flags,
}
use log_it_cpp.Format.Pattern.Print.{spelling, is_field, clashes, is_function}
use log_it_cpp.Format.Pattern.Options.{ends_flags}

pub ends_flags-spelling :
    (type_ : FormatType) (rest : Bytes)
    → is_field type_ ≡ true
    → ends_flags (spelling type_ ++ rest) ≡ true
unfolding spelling
ends_flags-spelling type_ rest h = ground (arith, h)

pub starts-spelling :
    (type_ : FormatType) (rest : Bytes)
    → is_field type_ ≡ true
    → starts b'!' (spelling type_ ++ rest) ≡ is_function type_
unfolding spelling
starts-spelling type_ rest h = ground (arith, h)

split-found :
    (c : ℕ) (before after : Bytes)
    → all (λ d. not (d == c)) before ≡ true
    → split_at_byte c (before ++ c ∷ after) ≡ some (before, after)
unfolding split_at_byte
split-found c [] after h = ground arith
split-found c (d ∷ before) after h =
    let e : ((d == c) ≡ false) × (all (λ d. not (d == c)) before ≡ true) = ground (arith, h) in
    rw (e.0, split-found c before after e.1) refl

module _ (again : Bytes → Bytes → Bool → Option (List FormatInstruction))
    (nested : Bytes → Option (List FormatInstruction)) (context : CompileContext) (f : Flags)
    (strip : Bool) where
  pub after_flags-spelling :
      (type_ : FormatType) (rest : Bytes)
      → is_field type_ ≡ true
      → clashes type_ rest ≡ false
      → after_flags again nested context strip (f, spelling type_ ++ rest)
        ≡ both_lists (some (instruction context type_ f strip [] ∷ [])) (again rest [] strip)
  unfolding after_flags run_directive directive spelling clashes
  after_flags-spelling type_ rest h k = ground (arith, h, k)

  pub after_flags-key :
      (key rest : Bytes)
      → all (λ c. not (c == b'}')) key ≡ true
      → after_flags again nested context strip (f, b'K' ∷ b'{' ∷ (key ++ b'}' ∷ rest))
        ≡ both_lists
            (some (instruction context mapped_diagnostic_context_value f strip key ∷ []))
            (again rest [] strip)
  unfolding after_flags run_directive directive context_value
  after_flags-key key rest h = rw (split-found b'}' key rest h) refl

  pub after_flags-nested :
      (params rest : Bytes)
      → all (λ c. not (c == b')')) params ≡ true
      → after_flags again nested context strip (f, b'N' ∷ b'(' ∷ (params ++ b')' ∷ rest))
        ≡ both_lists (nested params) (again rest [] strip)
  unfolding after_flags run_directive directive nested_pattern
  after_flags-nested params rest h =
      let l : leb 2 (suc (length (params ++ b')' ∷ rest))) ≡ true =
        ground (arith, length-append params (b')' ∷ rest)) in
      rw (l, split-found b')' params rest h) refl
