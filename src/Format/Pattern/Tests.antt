-- ===== src/Format/Pattern/Tests.antt =====
-- Concrete patterns.
use log_it_cpp.Base.{◌≢◌, none, ◌≡◌, refl, true, false, some, [], ◌∷◌}
use log_it_cpp.Base.Decimal.{decimal}
use log_it_cpp.Record.{Bytes}
use log_it_cpp.Format.Pattern.{
  default, no_args_fallback, Flags, no_flags, text_instruction, instruction, compile, compile_loop,
  after_flags, read_flags, run_directive, directive, nested_pattern, split_at_byte, year, month,
  day, hour, minute, second, millisecond, log_level, source_file_and_line, thread_id, message,
  full_file_name,
}
use log_it_cpp.Format.Pattern.Print.{
  Layout, done, literal, field, stripping, print, spelling, instructions, clashes,
}
use log_it_cpp.Format.Pattern.Fuel.{compile_returns}
use log_it_cpp.Format.Pattern.RoundTrip.{compile-print}

abbrev write_text : Bytes → Layout → Layout
write_text [] p = p
write_text (c ∷ t) p = literal c (write_text t p)

abbrev five_left : Flags
five_left = record no_flags { width = 5; left_align = true }

abbrev sixty_truncated : Flags
sixty_truncated = record no_flags { width = 60; truncate = true }

-- LOGIT_FILE_LOGGER_PATTERN.
abbrev file_layout : Layout
file_layout = literal b'[' (
    field no_flags year (
      literal b'-' (
        field no_flags month (
          literal b'-' (
            field no_flags day (
              literal b' ' (
                field no_flags hour (
                  literal b':' (
                    field no_flags minute (
                      literal b':' (
                        field no_flags second (
                          literal b'.' (
                            field no_flags millisecond (
                              write_text (b']' ∷ b' ' ∷ b'[' ∷ []) (
                                field five_left log_level (
                                  write_text (b']' ∷ b' ' ∷ b'[' ∷ []) (
                                    field sixty_truncated source_file_and_line (
                                      write_text
                                        (b']' ∷ b' ' ∷ b'[' ∷ b't' ∷ b'h' ∷ b'r' ∷ b'e' ∷ b'a'
                                          ∷ b'd' ∷ b':' ∷ [])
                                        (field no_flags thread_id (
                                          write_text (b']' ∷ b' ' ∷ []) (
                                            stripping true
                                              (field no_flags message done))))))))))))))))))))))

file_layout_test :
    print file_layout
    ≡ b'[' ∷ b'%' ∷ b'Y' ∷ b'-' ∷ b'%' ∷ b'm' ∷ b'-' ∷ b'%' ∷ b'd' ∷ b' ' ∷ b'%' ∷ b'H' ∷ b':'
      ∷ b'%' ∷ b'M' ∷ b':' ∷ b'%' ∷ b'S' ∷ b'.' ∷ b'%' ∷ b'e' ∷ b']' ∷ b' ' ∷ b'[' ∷ b'%' ∷ b'-'
      ∷ b'5' ∷ b'l' ∷ b']' ∷ b' ' ∷ b'[' ∷ b'%' ∷ b'6' ∷ b'0' ∷ b'!' ∷ b'@' ∷ b']' ∷ b' ' ∷ b'['
      ∷ b't' ∷ b'h' ∷ b'r' ∷ b'e' ∷ b'a' ∷ b'd' ∷ b':' ∷ b'%' ∷ b't' ∷ b']' ∷ b' ' ∷ b'%' ∷ b'S'
      ∷ b'C' ∷ b'%' ∷ b'v' ∷ []
unfolding print decimal spelling
file_layout_test = refl

compile-print_example :
    compile (print file_layout) default ≡ some (instructions default file_layout [] false)
unfolding clashes print spelling decimal
compile-print_example = compile-print default file_layout refl

-- "%N(%50!g)%v": a pattern for calls without arguments.
fallback_test :
    compile
      (b'%' ∷ b'N' ∷ b'(' ∷ b'[' ∷ b'%' ∷ b'5' ∷ b'0' ∷ b'!' ∷ b'g' ∷ b')' ∷ b'%' ∷ b'v' ∷ [])
      default
    ≡ some (
        text_instruction no_args_fallback (b'[' ∷ []) false
        ∷ instruction no_args_fallback full_file_name
            (record no_flags { width = 50; truncate = true })
            false
            []
        ∷ instruction default message no_flags false []
        ∷ [])
unfolding compile compile_loop after_flags read_flags run_directive directive nested_pattern
    split_at_byte
fallback_test = refl

-- "%10!v": after a width the '!' is never the function name.
width_before_function_test :
    compile (b'%' ∷ b'1' ∷ b'0' ∷ b'!' ∷ b'v' ∷ []) default
    ≡ some (
        instruction default message (record no_flags { width = 10; truncate = true }) false [] ∷ [])
unfolding compile compile_loop after_flags read_flags run_directive directive
width_before_function_test = refl

-- "%K{a%": a key that is not closed, and a percent sign at the end.
abbrev open_key : Bytes
open_key = b'%' ∷ b'K' ∷ b'{' ∷ b'a' ∷ b'%' ∷ []

compile_returns_example : compile open_key default ≢ none
compile_returns_example = compile_returns open_key default
