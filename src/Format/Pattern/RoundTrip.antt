-- ===== src/Format/Pattern/RoundTrip.antt =====
-- PatternCompiler::compile: a layout is read back from its text.
use log_it_cpp.Base.{
  ◌==◌, all, and_parts, is_not, ℕ, zero, suc, ◌<◌, ◌≡◌, refl, ap, ap₂, ◌∙◌, Bool, true, false, ◌&&◌,
  not, some, [], ◌∷◌, ◌++◌, length, length-append, arith,
}
use log_it_cpp.Record.{Bytes}
use log_it_cpp.Format.Pattern.{
  CompileContext, no_args_fallback, Flags, no_flags, instruction, read_flags, start_color,
  end_color, run_directive, directive, flush, both_lists, after_flags, compile_loop, compile,
}
use log_it_cpp.Format.Pattern.Print.{
  is_function, is_field, clashes, Layout, done, literal, percent, field, keyed, colour, stripping,
  fallback, spelling, print_flags, is_plain, print, instructions, is_readable,
}
use log_it_cpp.Format.Pattern.Options.{read_flags-print_flags}
use log_it_cpp.Format.Pattern.Directives.{
  ends_flags-spelling, starts-spelling, after_flags-spelling, after_flags-key, after_flags-nested,
}

end_fits : (n : ℕ) (xs ys : Bytes) → length (xs ++ ys) < n → length ys < n
end_fits n xs ys h = omega (arith, length-append xs ys, h)

start_fits : (n : ℕ) (xs ys : Bytes) → length (xs ++ ys) < n → length xs < n
start_fits n xs ys h = omega (arith, length-append xs ys, h)

-- A round of the loop at a percent sign, from where the flags end.
loop-flags :
    (fuel : ℕ) (context : CompileContext) (f : Flags) (rest t buffer : Bytes) (strip : Bool)
    → read_flags no_flags t ≡ (f, rest)
    → compile_loop (suc fuel) context (b'%' ∷ t) buffer strip
      ≡ both_lists (some (flush context buffer strip)) (
          after_flags
            (compile_loop fuel context)
            (λ params. compile_loop fuel no_args_fallback params [] false)
            context
            strip
            (f, rest))
unfolding compile_loop
loop-flags fuel context f rest t buffer strip h =
    ap
      (λ r. both_lists (some (flush context buffer strip)) (
        after_flags (compile_loop fuel context)
          (λ params. compile_loop fuel no_args_fallback params [] false) context strip r))
      h

compile_loop-print :
    (fuel : ℕ) (context : CompileContext) (p : Layout) (buffer : Bytes) (strip : Bool)
    → length (print p) < fuel
    → is_readable p ≡ true
    → compile_loop fuel context (print p) buffer strip ≡ some (instructions context p buffer strip)
unfolding compile_loop print instructions after_flags run_directive directive read_flags
compile_loop-print zero context p buffer strip h r = absurd (omega (arith, h))
compile_loop-print (suc fuel) context done buffer strip h r = refl
compile_loop-print (suc fuel) context (literal c p) buffer strip h r =
    let r = and_parts (not (c == b'%')) (is_readable p) r in
    rw (is_not (c == b'%') r.0)
      (compile_loop-print fuel context p (buffer ++ c ∷ []) strip (omega (arith, h)) r.1)
compile_loop-print (suc fuel) context (percent p) buffer strip h r =
    ap (both_lists (some (flush context buffer strip)))
      (compile_loop-print fuel context p (b'%' ∷ []) strip (omega (arith, h)) r)
compile_loop-print (suc fuel) context (field f type_ p) buffer strip h r =
    let a = and_parts (is_field type_) _ r in
    let b = and_parts (not (is_function type_ && not (is_plain f) && not f.truncate)) _ (a.1) in
    let c = and_parts (not (clashes type_ (print p))) (is_readable p) (b.1) in
    loop-flags fuel context f (spelling type_ ++ print p)
      (print_flags f ++ (spelling type_ ++ print p)) buffer strip
      (read_flags-print_flags f (spelling type_ ++ print p)
        (ends_flags-spelling type_ (print p) a.0)
        (ap (λ b. b && not (is_plain f) && not f.truncate) (starts-spelling type_ (print p) a.0)
          ∙ is_not _ b.0))
    ∙ ap (both_lists (some (flush context buffer strip))) (
        after_flags-spelling (compile_loop fuel context) _ context f strip type_ (print p) a.0
          (is_not _ c.0)
        ∙ ap (both_lists (some (instruction context type_ f strip [] ∷ []))) (
            compile_loop-print fuel context p [] strip
              (end_fits fuel (spelling type_) (print p)
                (end_fits fuel (print_flags f) _ (omega (arith, h))))
              c.1))
compile_loop-print (suc fuel) context (keyed f key p) buffer strip h r =
    let r = and_parts (all (λ c. not (c == b'}')) key) (is_readable p) r in
    loop-flags fuel context f (b'K' ∷ b'{' ∷ (key ++ b'}' ∷ print p))
      (print_flags f ++ b'K' ∷ b'{' ∷ (key ++ b'}' ∷ print p)) buffer strip
      (read_flags-print_flags f _ refl refl)
    ∙ ap (both_lists (some (flush context buffer strip))) (
        after_flags-key (compile_loop fuel context) _ context f strip key (print p) r.0
        ∙ ap (both_lists (some (_ ∷ []))) (
            compile_loop-print fuel context p [] strip
              (let e =
                  end_fits fuel (print_flags f) (b'K' ∷ b'{' ∷ (key ++ b'}' ∷ print p))
                    (omega (arith, h)) in
                let g = end_fits fuel key (b'}' ∷ print p) (omega (arith, e)) in omega (arith, g))
              r.1))
compile_loop-print (suc fuel) context (colour true p) buffer strip h r =
    ap
      (λ o.
        both_lists (some (flush context buffer strip))
          (both_lists (some (instruction context start_color no_flags strip [] ∷ [])) o))
      (compile_loop-print fuel context p [] strip (omega (arith, h)) r)
compile_loop-print (suc fuel) context (colour false p) buffer strip h r =
    ap
      (λ o.
        both_lists (some (flush context buffer strip))
          (both_lists (some (instruction context end_color no_flags strip [] ∷ [])) o))
      (compile_loop-print fuel context p [] strip (omega (arith, h)) r)
compile_loop-print (suc fuel) context (stripping true p) buffer strip h r =
    ap (both_lists (some (flush context buffer strip)))
      (compile_loop-print fuel context p [] true (omega (arith, h)) r)
compile_loop-print (suc fuel) context (stripping false p) buffer strip h r =
    ap (both_lists (some (flush context buffer strip)))
      (compile_loop-print fuel context p [] false (omega (arith, h)) r)
compile_loop-print (suc fuel) context (fallback q p) buffer strip h r =
    let a = and_parts (all (λ c. not (c == b')')) (print q)) _ r in
    let b = and_parts (is_readable q) (is_readable p) (a.1) in
    ap (both_lists (some (flush context buffer strip))) (
      after_flags-nested (compile_loop fuel context) _ context no_flags strip (print q) (print p)
        a.0
      ∙ ap₂ both_lists
          (compile_loop-print fuel no_args_fallback q [] false
            (start_fits fuel (print q) (b')' ∷ print p) (omega (arith, h))) b.0)
          (compile_loop-print fuel context p [] strip
            (let e = end_fits fuel (print q) (b')' ∷ print p) (omega (arith, h)) in
              omega (arith, e))
            b.1))

-- A pattern written from a layout is compiled to the instructions of the layout, where the layout can
-- be told from its text (no letter runs into the text after it, keys and nested patterns do not hold
-- their closing bracket).
pub compile-print :
    (context : CompileContext) (p : Layout)
    → is_readable p ≡ true
    → compile (print p) context ≡ some (instructions context p [] false)
unfolding compile
compile-print context p h =
    compile_loop-print (suc (length (print p))) context p [] false (omega arith) h
