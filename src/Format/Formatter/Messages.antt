-- ===== src/Format/Formatter/Messages.antt =====
-- SimpleLogFormatter: what a message and a field write is what they stand for.
use log_it_cpp.Base.{
  ◌≡◌, refl, ap, ap₂, ◌∙◌, Bool, true, false, ◌&&◌, not, List, [], ◌∷◌, ◌++◌, map, if◌then◌else◌,
  arith,
}
use log_it_cpp.Record.{Bytes}
use log_it_cpp.Format.Values.{
  VariableValue, ValuePrinter, write_plain, write_formatted, write_args, message_text, comma,
}
use log_it_cpp.Format.Fields.{Printer, DateTime, LoggedRecord}
use log_it_cpp.Format.Formatter.Layouts.{plain_argument, formatted_argument, message_of}
use log_it_cpp.Format.Formatter.Parts.{each_after, listed}

module _ {D : Type 0} (printer : ValuePrinter D) (print_mode : Bool)
    (write : VariableValue D → Bytes) where
  write_args-each_after :
      (args : List (VariableValue D))
      → write_args printer print_mode write false args
        ≡ each_after (if print_mode then [] else comma) (map write args)
  unfolding write_args each_after
  write_args-each_after [] = refl
  write_args-each_after (arg ∷ args) =
      ap₂ (λ s t. s ++ (write arg ++ t)) (separator print_mode) (write_args-each_after args)
    where
      separator :
          (mode : Bool) → (if not mode && true then comma else []) ≡ (if mode then [] else comma)
      separator true = refl
      separator false = refl

  write_args-listed :
      (args : List (VariableValue D))
      → write_args printer print_mode write true args
        ≡ listed (if print_mode then [] else comma) (map write args)
  unfolding write_args
  write_args-listed [] = refl
  write_args-listed (arg ∷ args) =
      ap₂ (λ s t. s ++ (write arg ++ t)) (no_separator print_mode) (write_args-each_after args)
    where
      no_separator : (mode : Bool) → (if not mode && false then comma else []) ≡ []
      no_separator true = refl
      no_separator false = refl

map-same {ℓ κ} :
    {A : Type ℓ} {B : Type κ} (f g : A → B) (xs : List A)
    → ((x : A) → f x ≡ g x)
    → map f xs ≡ map g xs
map-same f g [] h = refl
map-same f g (x ∷ xs) h = ap₂ ◌∷◌ (h x) (map-same f g xs h)

module _ {D : Type 0} (printer : Printer D) (r : LoggedRecord D) (dt : DateTime) where
  write_plain-plain_argument :
      (arg : VariableValue D)
      → write_plain printer.values r.entry.print_mode arg ≡ plain_argument printer r dt arg
  unfolding write_plain
  write_plain-plain_argument arg = ground arith

  write_formatted-formatted_argument :
      (arg : VariableValue D)
      → write_formatted printer.values r.entry.fmt_mode r.entry.format arg
        ≡ formatted_argument printer r dt arg
  unfolding write_formatted
  write_formatted-formatted_argument arg = ground arith

  pub message_text-message_of :
      message_text printer.values r.entry r.args_array
      ≡ message_of printer r dt r.entry.format r.args_array
  unfolding message_text
  message_text-message_of = go r.entry.format r.args_array refl
    where
      go :
          (format : Bytes) (args : List (VariableValue D))
          → r.entry.format ≡ format
          → elim format [
            | [] ↦
                write_args printer.values r.entry.print_mode
                  (write_plain printer.values r.entry.print_mode)
                  true
                  args
            | c ∷ t ↦ elim args [
              | [] ↦ r.entry.format
              | arg ∷ rest ↦
                  write_args printer.values r.entry.print_mode
                    (write_formatted printer.values r.entry.fmt_mode r.entry.format)
                    true
                    (arg ∷ rest)
            ]
          ]
            ≡ message_of printer r dt format args
      go [] args e =
          let write = write_plain printer.values r.entry.print_mode in
          write_args-listed printer.values r.entry.print_mode write args
          ∙ ap (listed (if r.entry.print_mode then [] else comma))
              (map-same write (plain_argument printer r dt) args write_plain-plain_argument)
      go (c ∷ format) [] e = e
      go (c ∷ format) (arg ∷ args) e =
          let write = write_formatted printer.values r.entry.fmt_mode r.entry.format in
          write_args-listed printer.values r.entry.print_mode write (arg ∷ args)
          ∙ ap (listed (if r.entry.print_mode then [] else comma)) (
              map-same write (formatted_argument printer r dt) (arg ∷ args)
                write_formatted-formatted_argument)
