-- ===== src/Format/Pattern/Fuel.antt =====
-- PatternCompiler::compile: the loop ends. Every round reads a byte, a nested pattern is a part of
-- what is left.
use log_it_cpp.Base.{
  ℕ, zero, suc, ◌+◌, ◌≤◌, ◌≢◌, refl, Bool, false, not, Option, none, some, List, [], ◌∷◌, ◌++◌,
  ◌==◌, if_elim, length, arith,
}
use log_it_cpp.Record.{Bytes}
use log_it_cpp.Format.Pattern.{
  CompileContext, no_args_fallback, FormatInstruction, Flags, no_flags, is_flag, add_flag, starts,
  tail, read_flags, put_before, split_at_byte, Directive, emits, emits_color, strips, nests, skips,
  writes, context_value, nested_pattern, directive, flush, both_lists, run_directive, after_flags,
  compile_loop, compile,
}

length-tail : (t : Bytes) → length (tail t) ≤ length t
length-tail [] = omega arith
length-tail (c ∷ t) = omega arith

length-read_flags : (f : Flags) (t : Bytes) → length ((read_flags f t).1) ≤ length t
unfolding read_flags
length-read_flags f [] = omega arith
length-read_flags f (c ∷ t) =
    let g = add_flag f c in
    if_elim (λ (r : Flags × Bytes). length (r.1) ≤ suc (length t)) (not (is_flag c)) _ _
      (λ h. omega arith)
      (λ h.
        if_elim (λ (r : Flags × Bytes). length (r.1) ≤ suc (length t)) (starts b'!' t) _ _
          (λ i. omega (arith, length-tail t)) (λ i. omega (arith, length-read_flags g t)))

-- The bytes that are left by a search, both parts counted.
abbrev parts_length : Option (Bytes × Bytes) → ℕ
parts_length none = 0
parts_length (some (before, after)) = length before + length after

parts_length-put_before :
    (d : ℕ) (o : Option (Bytes × Bytes)) → parts_length (put_before d o) ≤ suc (parts_length o)
parts_length-put_before d none = omega arith
parts_length-put_before d (some (before, after)) = omega arith

parts_length-split_at_byte : (c : ℕ) (t : Bytes) → parts_length (split_at_byte c t) ≤ length t
unfolding split_at_byte
parts_length-split_at_byte c [] = omega arith
parts_length-split_at_byte c (d ∷ t) =
    if_elim (λ o. parts_length o ≤ suc (length t)) (d == c) _ _ (λ h. omega arith)
      (λ h.
        omega
          (arith, parts_length-put_before d (split_at_byte c t), parts_length-split_at_byte c t))

-- The bytes that a directive leaves to compile.
abbrev left_over : Directive → ℕ
left_over (emits type_ key t) = length t
left_over (emits_color type_ t) = length t
left_over (strips b t) = length t
left_over (nests params t) = length params + length t
left_over (skips t) = length t
left_over (writes c t) = length t

left_over-context_value :
    (t : Bytes) (o : Option (Bytes × Bytes))
    → parts_length o ≤ length t
    → left_over (context_value t o) ≤ length t
unfolding context_value
left_over-context_value t none h = omega arith
left_over-context_value t (some (key, after)) h = omega (arith, h)

left_over-nested_pattern :
    (t : Bytes) (o : Option (Bytes × Bytes))
    → parts_length o ≤ length t
    → left_over (nested_pattern t o) ≤ length t
unfolding nested_pattern
left_over-nested_pattern t none h = omega (arith, length-tail t)
left_over-nested_pattern t (some (key, after)) h = omega (arith, h)

left_over-directive : (c : ℕ) (t : Bytes) → left_over (directive c t) ≤ length t
unfolding directive
left_over-directive c t =
    let a = length-tail t in
    let b = length-tail (tail t) in
    let k = parts_length-split_at_byte b'}' (tail t) in
    let n = parts_length-split_at_byte b')' (tail t) in
    let k = left_over-context_value t (split_at_byte b'}' (tail t)) (omega (arith, a, k)) in
    let n = left_over-nested_pattern t (split_at_byte b')' (tail t)) (omega (arith, a, n)) in
    ground (arith, a, b, k, n)

some_ne_none {ℓ} : {A : Type ℓ} {x : A} → some x ≢ none
some_ne_none = λ e. cc

both_lists-some :
    (a b : Option (List FormatInstruction)) → a ≢ none → b ≢ none → both_lists a b ≢ none
both_lists-some none b h k = absurd (h refl)
both_lists-some (some x) none h k = absurd (k refl)
both_lists-some (some x) (some y) h k = some_ne_none

run_directive-some :
    (again : Bytes → Bytes → Bool → Option (List FormatInstruction))
    (nested : Bytes → Option (List FormatInstruction)) (context : CompileContext) (f : Flags)
    (strip : Bool) (d : Directive)
    → ((t buffer : Bytes) (b : Bool) → length t ≤ left_over d → again t buffer b ≢ none)
    → ((t : Bytes) → length t ≤ left_over d → nested t ≢ none)
    → run_directive again nested context f strip d ≢ none
unfolding run_directive
run_directive-some again nested context f strip (emits type_ key t) h k =
    both_lists-some (some (_ ∷ [])) (again t [] strip) some_ne_none (h t [] strip (omega arith))
run_directive-some again nested context f strip (emits_color type_ t) h k =
    both_lists-some (some (_ ∷ [])) (again t [] strip) some_ne_none (h t [] strip (omega arith))
run_directive-some again nested context f strip (strips b t) h k = h t [] b (omega arith)
run_directive-some again nested context f strip (nests params t) h k =
    both_lists-some (nested params) (again t [] strip) (k params (omega arith))
      (h t [] strip (omega arith))
run_directive-some again nested context f strip (skips t) h k = h t [] strip (omega arith)
run_directive-some again nested context f strip (writes c t) h k = h t (c ∷ []) strip (omega arith)

after_flags-some :
    (again : Bytes → Bytes → Bool → Option (List FormatInstruction))
    (nested : Bytes → Option (List FormatInstruction)) (context : CompileContext) (strip : Bool)
    (r : Flags × Bytes)
    → ((t buffer : Bytes) (b : Bool) → length t ≤ length (r.1) → again t buffer b ≢ none)
    → ((t : Bytes) → length t ≤ length (r.1) → nested t ≢ none)
    → after_flags again nested context strip r ≢ none
unfolding after_flags
after_flags-some again nested context strip (f, []) h k = some_ne_none
after_flags-some again nested context strip (f, c ∷ t) h k =
    let l = left_over-directive c t in
    run_directive-some again nested context f strip (directive c t)
      (λ u buffer b i. h u buffer b (omega (arith, l, i))) (λ u i. k u (omega (arith, l, i)))

compile_loop-some :
    (fuel : ℕ) (context : CompileContext) (t buffer : Bytes) (strip : Bool)
    → length t ≤ fuel
    → compile_loop fuel context t buffer strip ≢ none
unfolding compile_loop
compile_loop-some zero context [] buffer strip h = some_ne_none
compile_loop-some (suc fuel) context [] buffer strip h = some_ne_none
compile_loop-some zero context (c ∷ t) buffer strip h = absurd (omega (arith, h))
compile_loop-some (suc fuel) context (c ∷ t) buffer strip h =
    let r = length-read_flags no_flags t in
    if_elim (λ o. o ≢ none) (c == b'%') _ _
      (λ i. both_lists-some (some (flush context buffer strip)) _ some_ne_none (
        after_flags-some (compile_loop fuel context)
          (λ params. compile_loop fuel no_args_fallback params [] false) context strip
          (read_flags no_flags t)
          (λ u b s j. compile_loop-some fuel context u b s (omega (arith, h, r, j)))
          (λ u j. compile_loop-some fuel no_args_fallback u [] false (omega (arith, h, r, j)))))
      (λ i. compile_loop-some fuel context t (buffer ++ c ∷ []) strip (omega (arith, h)))

-- Every pattern is compiled: the loop, and those of nested patterns, end within the fuel.
pub compile_returns : (pattern : Bytes) (context : CompileContext) → compile pattern context ≢ none
unfolding compile
compile_returns pattern context =
    compile_loop-some (suc (length pattern)) context pattern [] false (omega arith)
