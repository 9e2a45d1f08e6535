-- ===== src/Format/Formatter/Written.antt =====
-- SimpleLogFormatter: what the functions of the code write for a layout, and each instruction.
use log_it_cpp.Base.{
  ℕ, ◌≡◌, refl, sym, ap, ap₂, ◌∙◌, Bool, true, false, ◌&&◌, not, List, [], ◌∷◌, ◌++◌, append_assoc,
  append-nil, ◌==◌, if◌then◌else◌, and_parts, arith,
}
use log_it_cpp.Record.{Bytes}
use log_it_cpp.Format.{write_field, truncate_text, align, right}
use log_it_cpp.Format.Ansi.{plain, no_escape, remove-rendered}
use log_it_cpp.Format.Colors.{get_log_level_color, ansi_code, default_color}
use log_it_cpp.Format.Pattern.{
  CompileContext, no_args_fallback, FormatType, start_color, end_color,
  mapped_diagnostic_context_value, FormatInstruction, Flags, no_flags, instruction, flush,
}
use log_it_cpp.Format.Pattern.Print.{
  is_field, Layout, done, literal, percent, field, keyed, colour, stripping, fallback,
}
use log_it_cpp.Format.Fields.{
  Printer, DateTime, LoggedRecord, mdc_value_text, is_name, alignment_of, is_skipped, field_text,
  apply, apply_all, color_text,
}

-- The text of the pattern holds no escape character.
abbrev pub is_plain_text : Layout → Bool
is_plain_text done = true
is_plain_text (literal c p) = not (c == 27) && is_plain_text p
is_plain_text (percent p) = is_plain_text p
is_plain_text (field f type_ p) = is_plain_text p
is_plain_text (keyed f key p) = is_plain_text p
is_plain_text (colour begin p) = is_plain_text p
is_plain_text (stripping on p) = is_plain_text p
is_plain_text (fallback q p) = is_plain_text q && is_plain_text p

pub all-snoc :
    (xs : Bytes) (c : ℕ) → no_escape xs ≡ true → (c == 27) ≡ false → no_escape (xs ++ c ∷ []) ≡ true
all-snoc [] c h k = rw k refl
all-snoc (d ∷ xs) c h k =
    let r = and_parts (not (d == 27)) (no_escape xs) h in rw (r.0) (all-snoc xs c r.1 k)

-- A text without a width is written as it is, but for its escape codes.
write_field-plain :
    (strip : Bool) (text : Bytes)
    → no_escape text ≡ true
    → write_field strip false false right 0 text ≡ text
unfolding write_field truncate_text align
write_field-plain true text h = remove-rendered (plain text) h
write_field-plain false text h = refl

module _ {D : Type 0} (printer : Printer D) (r : LoggedRecord D) (dt : DateTime) where
  -- What the functions of the code write for a layout: its text, and its fields from the record,
  -- with escape codes stripped from them or kept.
  unfoldable pub render : Bool → Layout → Bytes
  render strip done = []
  render strip (literal c p) = c ∷ render strip p
  render strip (percent p) = b'%' ∷ render strip p
  render strip (field f type_ p) =
      write_field strip f.truncate (is_name type_) (alignment_of f) f.width
        (field_text printer type_ [] [] r dt)
      ++ render strip p
  render strip (keyed f key p) =
      write_field strip f.truncate false (alignment_of f) f.width (mdc_value_text key r.context)
      ++ render strip p
  render strip (colour begin p) =
      (if strip
        then []
        else if begin
        then get_log_level_color r.entry.log_level
        else ansi_code default_color)
      ++ render strip p
  render strip (stripping on p) = render on p
  render strip (fallback q p) =
      (if is_skipped no_args_fallback r then [] else render false q) ++ render strip p

  pub apply_all-append :
      (xs ys : List FormatInstruction)
      → apply_all printer (xs ++ ys) r dt ≡ apply_all printer xs r dt ++ apply_all printer ys r dt
  unfolding apply_all
  apply_all-append [] ys = refl
  apply_all-append (i ∷ xs) ys =
      ap (◌++◌ (apply printer i r dt)) (apply_all-append xs ys)
      ∙ sym (
          append_assoc (apply printer i r dt) (apply_all printer xs r dt)
            (apply_all printer ys r dt))

  pub apply_all-flush :
      (context : CompileContext) (buffer : Bytes) (strip : Bool)
      → is_skipped context r ≡ false
      → no_escape buffer ≡ true
      → apply_all printer (flush context buffer strip) r dt ≡ buffer
  unfolding apply_all apply field_text color_text
  apply_all-flush context [] strip h k = refl
  apply_all-flush context (c ∷ buffer) strip h k = rw h (
      append-nil (write_field strip false false right 0 (c ∷ buffer))
      ∙ write_field-plain strip (c ∷ buffer) k)

  pub skipped-flush :
      (context : CompileContext) (buffer : Bytes) (strip : Bool)
      → is_skipped context r ≡ true
      → apply_all printer (flush context buffer strip) r dt ≡ []
  unfolding apply_all apply
  skipped-flush context [] strip h = refl
  skipped-flush context (c ∷ buffer) strip h = rw h refl

  pub color_text-field :
      (type_ : FormatType) (strip : Bool)
      → is_field type_ ≡ true
      → color_text printer type_ strip r ≡ []
  unfolding color_text
  color_text-field type_ strip h = ground arith

  pub apply-field :
      (context : CompileContext) (f : Flags) (type_ : FormatType) (key : Bytes) (strip : Bool)
      → is_skipped context r ≡ false
      → color_text printer type_ strip r ≡ []
      → apply printer (instruction context type_ f strip key) r dt
        ≡ write_field strip f.truncate
            (is_name type_)
            (alignment_of f)
            f.width
            (field_text printer type_ [] key r dt)
  unfolding apply
  apply-field context f type_ key strip h k = rw (h, k) refl

  pub apply_key :
      (context : CompileContext) (f : Flags) (key : Bytes) (strip : Bool)
      → is_skipped context r ≡ false
      → apply printer (instruction context mapped_diagnostic_context_value f strip key) r dt
        ≡ write_field strip f.truncate false (alignment_of f) f.width (mdc_value_text key r.context)
  unfolding field_text color_text
  apply_key context f key strip h =
      apply-field context f mapped_diagnostic_context_value key strip h refl

  pub apply-colour :
      (context : CompileContext) (begin strip : Bool)
      → is_skipped context r ≡ false
      → apply printer
          (instruction context (if begin then start_color else end_color) no_flags strip [])
          r
          dt
        ≡ (if strip
            then []
            else if begin
            then get_log_level_color r.entry.log_level
            else ansi_code default_color)
  unfolding apply color_text field_text
  apply-colour context true strip h = rw (h, write_field-plain strip [] refl) (append-nil _)
  apply-colour context false strip h = rw (h, write_field-plain strip [] refl) (append-nil _)

  -- The flushed buffer, and what follows it.
  pub skip :
      (buffer : Bytes) (strip : Bool) (xs : List FormatInstruction)
      → is_skipped no_args_fallback r ≡ true
      → apply_all printer xs r dt ≡ []
      → apply_all printer (flush no_args_fallback buffer strip ++ xs) r dt ≡ []
  skip buffer strip xs h k =
      apply_all-append (flush no_args_fallback buffer strip) xs
      ∙ ap₂ ◌++◌ (skipped-flush no_args_fallback buffer strip h) k

  pub after_flush :
      (context : CompileContext) (buffer : Bytes) (strip : Bool) (xs : List FormatInstruction)
      {t : Bytes}
      → is_skipped context r ≡ false
      → no_escape buffer ≡ true
      → apply_all printer xs r dt ≡ t
      → apply_all printer (flush context buffer strip ++ xs) r dt ≡ buffer ++ t
  after_flush context buffer strip xs h k e =
      apply_all-append (flush context buffer strip) xs
      ∙ ap₂ ◌++◌ (apply_all-flush context buffer strip h k) e
