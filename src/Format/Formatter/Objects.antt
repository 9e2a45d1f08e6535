-- ===== src/Format/Formatter/Objects.antt =====
-- SimpleLogFormatter: the JSON of a record is read back.
use log_it_cpp.Base.{◌≡◌, refl, ap, ◌∙◌, some, List, [], ◌∷◌, ◌++◌, append_assoc, map, arith}
use log_it_cpp.Base.Ints.{pos}
use log_it_cpp.Record.{Bytes, level_index}
use log_it_cpp.Otlp.Json.{escape_byte}
use log_it_cpp.Format.Values.{VariableValue, comma, value_text}
use log_it_cpp.Format.Fields.{Printer, LoggedRecord, joined_by}
use log_it_cpp.Format.Formatter.{escape_json_string, quoted, arg_text, format_as_json}
use log_it_cpp.Format.Formatter.Reader.{
  Json, number, string, array, read_members, read_object, write_member, read_members-joined_by,
}

-- The members of a record.
abbrev log_level_name : Bytes
log_level_name = b'l' ∷ b'o' ∷ b'g' ∷ b'_' ∷ b'l' ∷ b'e' ∷ b'v' ∷ b'e' ∷ b'l' ∷ []

abbrev timestamp_ms_name : Bytes
timestamp_ms_name =
    b't' ∷ b'i' ∷ b'm' ∷ b'e' ∷ b's' ∷ b't' ∷ b'a' ∷ b'm' ∷ b'p' ∷ b'_' ∷ b'm' ∷ b's' ∷ []

abbrev file_name : Bytes
file_name = b'f' ∷ b'i' ∷ b'l' ∷ b'e' ∷ []

abbrev line_name : Bytes
line_name = b'l' ∷ b'i' ∷ b'n' ∷ b'e' ∷ []

abbrev function_name : Bytes
function_name = b'f' ∷ b'u' ∷ b'n' ∷ b'c' ∷ b't' ∷ b'i' ∷ b'o' ∷ b'n' ∷ []

abbrev format_name : Bytes
format_name = b'f' ∷ b'o' ∷ b'r' ∷ b'm' ∷ b'a' ∷ b't' ∷ []

abbrev arg_names_name : Bytes
arg_names_name = b'a' ∷ b'r' ∷ b'g' ∷ b'_' ∷ b'n' ∷ b'a' ∷ b'm' ∷ b'e' ∷ b's' ∷ []

abbrev args_array_name : Bytes
args_array_name = b'a' ∷ b'r' ∷ b'g' ∷ b's' ∷ b'_' ∷ b'a' ∷ b'r' ∷ b'r' ∷ b'a' ∷ b'y' ∷ []

abbrev thread_id_name : Bytes
thread_id_name = b't' ∷ b'h' ∷ b'r' ∷ b'e' ∷ b'a' ∷ b'd' ∷ b'_' ∷ b'i' ∷ b'd' ∷ []

map-twice {ℓ κ μ} :
    {A : Type ℓ} {B : Type κ} {C : Type μ} (f : A → B) (g : B → C) (xs : List A)
    → map (λ x. g (f x)) xs ≡ map g (map f xs)
map-twice f g [] = refl
map-twice f g (x ∷ xs) = ap (◌∷◌ (g (f x))) (map-twice f g xs)

module _ {D : Type 0} (printer : Printer D) (r : LoggedRecord D) where
  abbrev pub first_member : Bytes × Json
  first_member = (log_level_name, number (pos (level_index r.entry.log_level)))

  abbrev pub other_members : List (Bytes × Json)
  other_members =
      (timestamp_ms_name, number r.entry.timestamp_ms)
      ∷ (file_name, string r.entry.file)
      ∷ (line_name, number r.entry.line)
      ∷ (function_name, string r.entry.function)
      ∷ (format_name, string r.entry.format)
      ∷ (arg_names_name, string r.entry.arg_names)
      ∷ (args_array_name, array (map (λ arg. value_text printer.values arg.value) r.args_array))
      ∷ (thread_id_name, string (printer.show_thread r.entry.thread_id))
      ∷ []

  object_text :
      format_as_json printer r
      ≡ b'{' ∷ (joined_by comma (map write_member (first_member ∷ other_members)) ++ b'}' ∷ [])
  unfolding format_as_json escape_json_string escape_byte arg_text
  object_text =
      rw
        (map-twice (λ (arg : VariableValue D). value_text printer.values arg.value) quoted
          r.args_array)
        simp append_assoc

  -- The JSON of a record is read back as an object with its nine members, whatever bytes the texts
  -- hold: the level, the time, the file, the line, the function, the format, the names and the texts
  -- of the arguments, each as `to_string` gives it, and the thread. The reader refuses other
  -- punctuation than that of JSON, unescaped control bytes, escapes that JSON does not have and
  -- malformed codes; bytes above 127 it takes as they are.
  pub read_object-format_as_json :
      (rest : Bytes)
      → read_object 9 (format_as_json printer r ++ rest) ≡ some (first_member ∷ other_members, rest)
  unfolding read_object
  read_object-format_as_json rest =
      ap (λ t. read_object 9 (t ++ rest)) object_text
      ∙ ap (read_members 9) (
          append_assoc (joined_by comma (map write_member (first_member ∷ other_members)))
            (b'}' ∷ []) rest)
      ∙ read_members-joined_by 9 (first_member.0) (first_member.1) other_members rest (omega arith)
