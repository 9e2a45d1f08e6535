-- ===== src/Arguments/Tests.antt =====
-- Concrete texts of arguments.
use log_it_cpp.Base.{List, ◌≡◌, refl, none, some, [], ◌∷◌}
use log_it_cpp.Record.{Bytes}
use log_it_cpp.Format.Values.{comma}
use log_it_cpp.Format.Fields.{joined_by}
use log_it_cpp.Arguments.Split.{split_arguments-joined}
use log_it_cpp.Base.Ints.{◌+ℤ◌}
use log_it_cpp.Arguments.{
  follows_scope, is_closing_template, skip_string, skip_quoted, trim_start, trimmed, after_quoted,
  split_loop, split_arguments,
}

-- A call and a string with commas.
call_test :
    split_arguments (
      b'f' ∷ b'(' ∷ b'a' ∷ b',' ∷ b' ' ∷ b'b' ∷ b')' ∷ b',' ∷ b' ' ∷ b'"' ∷ b',' ∷ b'"' ∷ b','
      ∷ b' ' ∷ b'c' ∷ [])
    ≡ some (
        (b'f' ∷ b'(' ∷ b'a' ∷ b',' ∷ b' ' ∷ b'b' ∷ b')' ∷ [])
        ∷ (b'"' ∷ b',' ∷ b'"' ∷ [])
        ∷ (b'c' ∷ [])
        ∷ [])
unfolding follows_scope is_closing_template skip_string skip_quoted trim_start trimmed after_quoted
    split_loop split_arguments ◌+ℤ◌
call_test = refl

-- A template before a scope.
scope_test :
    split_arguments (
      b's' ∷ b'<' ∷ b'a' ∷ b',' ∷ b' ' ∷ b'b' ∷ b'>' ∷ b':' ∷ b':' ∷ b'v' ∷ b',' ∷ b' ' ∷ b'c' ∷ [])
    ≡ some (
        (b's' ∷ b'<' ∷ b'a' ∷ b',' ∷ b' ' ∷ b'b' ∷ b'>' ∷ b':' ∷ b':' ∷ b'v' ∷ [])
        ∷ (b'c' ∷ [])
        ∷ [])
unfolding follows_scope is_closing_template skip_string skip_quoted trim_start trimmed after_quoted
    split_loop split_arguments ◌+ℤ◌
scope_test = refl

-- A template call is cut at its comma.
template_call_test :
    split_arguments (b'f' ∷ b'<' ∷ b'a' ∷ b',' ∷ b' ' ∷ b'b' ∷ b'>' ∷ b'(' ∷ b'c' ∷ b')' ∷ [])
    ≡ some ((b'f' ∷ b'<' ∷ b'a' ∷ []) ∷ (b'b' ∷ b'>' ∷ b'(' ∷ b'c' ∷ b')' ∷ []) ∷ [])
unfolding follows_scope is_closing_template skip_string skip_quoted trim_start trimmed after_quoted
    split_loop split_arguments ◌+ℤ◌
template_call_test = refl

-- So are braces.
braces_test :
    split_arguments (b'{' ∷ b'a' ∷ b',' ∷ b' ' ∷ b'b' ∷ b'}' ∷ [])
    ≡ some ((b'{' ∷ b'a' ∷ []) ∷ (b'b' ∷ b'}' ∷ []) ∷ [])
unfolding follows_scope is_closing_template skip_string skip_quoted trim_start trimmed after_quoted
    split_loop split_arguments ◌+ℤ◌
braces_test = refl

-- A comma at the end.
trailing_test : split_arguments (b'a' ∷ b',' ∷ []) ≡ none
unfolding follows_scope is_closing_template skip_string skip_quoted trim_start trimmed after_quoted
    split_loop split_arguments ◌+ℤ◌
trailing_test = refl

abbrev call_name : Bytes
call_name = b'f' ∷ b'(' ∷ b'a' ∷ b',' ∷ b' ' ∷ b'b' ∷ b')' ∷ []

abbrev other_names : List Bytes
other_names = (b'x' ∷ []) ∷ (b'(' ∷ b'y' ∷ b')' ∷ []) ∷ []

split_arguments-joined_example :
    split_arguments (joined_by comma (call_name ∷ other_names)) ≡ some (call_name ∷ other_names)
split_arguments-joined_example = split_arguments-joined call_name other_names refl refl
