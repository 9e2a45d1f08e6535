-- ===== src/Format/Tests.antt =====
-- Concrete fields.
use log_it_cpp.Base.{◌≡◌, refl, true, false, [], ◌∷◌, length}
use log_it_cpp.Format.{
  remove_ansi_escape_codes, strip_from, write_field, truncate_text, truncate_middle, widen, align,
  pad, left, center,
}
use log_it_cpp.Format.Width.{length-write_field}
use log_it_cpp.Format.Ansi.{Coloured, plain, coded, rendered, text_of, remove-rendered}

-- "abcdefgh" in seven bytes, as a file name.
middle_test :
    write_field false true true left 7 (97 ∷ 98 ∷ 99 ∷ 100 ∷ 101 ∷ 102 ∷ 103 ∷ 104 ∷ [])
    ≡ 97 ∷ 98 ∷ 46 ∷ 46 ∷ 46 ∷ 103 ∷ 104 ∷ []
unfolding write_field truncate_text truncate_middle widen align
middle_test = refl

center_test : write_field false true false center 5 (97 ∷ 98 ∷ []) ≡ 32 ∷ 97 ∷ 98 ∷ 32 ∷ 32 ∷ []
unfolding write_field truncate_text align pad
center_test = refl

length-write_field_example :
    length (write_field true true true left 8 (27 ∷ 91 ∷ 109 ∷ 97 ∷ [])) ≡ 8
length-write_field_example = length-write_field true true left 8 (27 ∷ 91 ∷ 109 ∷ 97 ∷ [])

-- A red letter.
abbrev red_a : Coloured
red_a = coded [] (51 ∷ 49 ∷ []) 109 (coded (97 ∷ []) (48 ∷ []) 109 (plain []))

remove-rendered_test : remove_ansi_escape_codes (rendered red_a) ≡ text_of red_a
remove-rendered_test = remove-rendered red_a (refl, refl, refl, (refl, refl, refl, refl))

nested_code_test :
    remove_ansi_escape_codes (27 ∷ 27 ∷ 91 ∷ 109 ∷ 91 ∷ 109 ∷ []) ≡ 27 ∷ 91 ∷ 109 ∷ []
unfolding remove_ansi_escape_codes strip_from
nested_code_test = refl
