-- ===== src/Format/Formatter/Render.antt =====
-- SimpleLogFormatter: what a formatter writes for a pattern, from the layout of the pattern alone.
use log_it_cpp.Base.{
  ◌≡◌, refl, sym, ap, ap₂, ◌∙◌, Bool, true, false, ◌&&◌, ◌||◌, not, ltb, length, List, arith, some,
  [], ◌∷◌, ◌++◌, append_assoc, append-nil, ◌==◌, if◌then◌else◌, all, and_parts, is_not, inl, inr,
  Bool-cases,
}
use log_it_cpp.Base.Ints.{ℤ, ◌+ℤ◌}
use log_it_cpp.Record.{Bytes}
use log_it_cpp.Format.Ansi.{no_escape}
use log_it_cpp.Format.Colors.{ansi_code}
use log_it_cpp.Format.Pattern.{CompileContext, default, no_args_fallback}
use log_it_cpp.Format.Pattern.Print.{
  is_field, is_function, is_plain, clashes, Layout, done, literal, percent, field, keyed, colour,
  stripping, fallback, print, instructions, is_readable,
}
use log_it_cpp.Format.Pattern.RoundTrip.{compile-print}
use log_it_cpp.Format.Fields.{
  Printer, DateTime, LoggedRecord, is_skipped, field_text, mdc_value_text, apply, apply_all,
  format_as_pattern,
}
use log_it_cpp.Format.Formatter.{
  Config, SimpleLogFormatter, set_pattern, compile_pattern, with_instructions, set_timestamp_offset,
  format,
}
use log_it_cpp.Format.Values.{VariableValue}
use log_it_cpp.Format.Formatter.Layouts.{layout_text}
use log_it_cpp.Format.Formatter.Parts.{normal_code, holds_name, fitted}
use log_it_cpp.Format.Formatter.Meanings.{
  field_text-meaning, mdc_value_text-mdc_under, get_log_level_color-level_code,
}
use log_it_cpp.Format.Formatter.Fitted.{write_field-fitted, write_field_key-fitted}
use log_it_cpp.Format.Formatter.Written.{
  is_plain_text, all-snoc, render, apply_all-append, apply_all-flush, skipped-flush,
  color_text-field, apply-field, apply_key, apply-colour, skip, after_flush,
}

module _ {D : Type 0} (printer : Printer D) (r : LoggedRecord D) (dt : DateTime) where
  -- Nothing is written for a skipped layout.
  skipped_lem :
      (p : Layout) (buffer : Bytes) (strip : Bool)
      → is_skipped no_args_fallback r ≡ true
      → apply_all printer (instructions no_args_fallback p buffer strip) r dt ≡ []
  unfolding instructions apply_all apply
  skipped_lem done buffer strip h = skipped-flush printer r dt no_args_fallback buffer strip h
  skipped_lem (literal c p) buffer strip h = skipped_lem p (buffer ++ c ∷ []) strip h
  skipped_lem (percent p) buffer strip h =
      skip printer r dt buffer strip _ h (skipped_lem p (b'%' ∷ []) strip h)
  skipped_lem (field f type_ p) buffer strip h =
      skip printer r dt buffer strip _ h (rw h (skipped_lem p [] strip h))
  skipped_lem (keyed f key p) buffer strip h =
      skip printer r dt buffer strip _ h (rw h (skipped_lem p [] strip h))
  skipped_lem (colour begin p) buffer strip h =
      skip printer r dt buffer strip _ h (rw h (skipped_lem p [] strip h))
  skipped_lem (stripping on p) buffer strip h =
      skip printer r dt buffer strip _ h (skipped_lem p [] on h)
  skipped_lem (fallback q p) buffer strip h = skip printer r dt buffer strip _ h (
      apply_all-append printer r dt (instructions no_args_fallback q [] false)
        (instructions no_args_fallback p [] strip)
      ∙ ap₂ ◌++◌ (skipped_lem q [] false h) (skipped_lem p [] strip h))

  render_lem :
      (context : CompileContext) (p : Layout) (buffer : Bytes) (strip : Bool)
      → is_skipped context r ≡ false
      → no_escape buffer ≡ true
      → is_readable p ≡ true
      → is_plain_text p ≡ true
      → apply_all printer (instructions context p buffer strip) r dt
        ≡ buffer ++ render printer r dt strip p
  unfolding instructions apply_all render
  render_lem context done buffer strip h k l m =
      apply_all-flush printer r dt context buffer strip h k ∙ sym (append-nil buffer)
  render_lem context (literal c p) buffer strip h k l m =
      let l = and_parts (not (c == b'%')) (is_readable p) l in
      let m = and_parts (not (c == 27)) (is_plain_text p) m in
      render_lem context p (buffer ++ c ∷ []) strip h (all-snoc buffer c k (is_not _ m.0)) l.1 m.1
      ∙ append_assoc buffer (c ∷ []) (render printer r dt strip p)
  render_lem context (percent p) buffer strip h k l m =
      after_flush printer r dt context buffer strip _ h k
        (render_lem context p (b'%' ∷ []) strip h refl l m)
  render_lem context (field f type_ p) buffer strip h k l m =
      let a = and_parts (is_field type_) _ l in
      let b = and_parts (not (is_function type_ && not (is_plain f) && not f.truncate)) _ a.1 in
      let c = and_parts (not (clashes type_ (print p))) (is_readable p) b.1 in
      after_flush printer r dt context buffer strip _ h k (
        ap₂ ◌++◌
          (apply-field printer r dt context f type_ [] strip h
            (color_text-field printer r dt type_ strip a.0))
          (render_lem context p [] strip h refl c.1 m))
  render_lem context (keyed f key p) buffer strip h k l m =
      let l = and_parts (all (λ c. not (c == b'}')) key) (is_readable p) l in
      after_flush printer r dt context buffer strip _ h k (
        ap₂ ◌++◌ (apply_key printer r dt context f key strip h)
          (render_lem context p [] strip h refl l.1 m))
  render_lem context (colour begin p) buffer strip h k l m =
      after_flush printer r dt context buffer strip _ h k (
        ap₂ ◌++◌ (apply-colour printer r dt context begin strip h)
          (render_lem context p [] strip h refl l m))
  render_lem context (stripping on p) buffer strip h k l m =
      after_flush printer r dt context buffer strip _ h k (render_lem context p [] on h refl l m)
  render_lem context (fallback q p) buffer strip h k l m =
      let l = and_parts (all (λ c. not (c == b')')) (print q)) _ l in
      let l = and_parts (is_readable q) (is_readable p) l.1 in
      let m = and_parts (is_plain_text q) (is_plain_text p) m in
      after_flush printer r dt context buffer strip _ h k (
        apply_all-append printer r dt (instructions no_args_fallback q [] false)
          (instructions context p [] strip)
        ∙ ap₂ ◌++◌
            (elim (Bool-cases (is_skipped no_args_fallback r)) [
              | inl e ↦
                  skipped_lem q [] false e
                  ∙ sym (ap (λ b. if b then [] else render printer r dt false q) e)
              | inr e ↦
                  render_lem no_args_fallback q [] false e refl l.0 m.0
                  ∙ sym (ap (λ b. if b then [] else render printer r dt false q) e)
            ])
            (render_lem context p [] strip h refl l.1 m.1))

module _ {D : Type 0} (printer : Printer D) (r : LoggedRecord D) (dt : DateTime) where
  is_skipped-lengths :
      is_skipped no_args_fallback r ≡ (ltb 0 (length r.entry.format) || ltb 0 (length r.args_array))
  unfolding is_skipped
  is_skipped-lengths = go r.entry.format r.args_array
    where
      go :
          (text : Bytes) (args : List (VariableValue D))
          → elim text [ [] ↦ elim args [ [] ↦ false | a ∷ args ↦ true ] | c ∷ rest ↦ true ]
            ≡ (ltb 0 (length text) || ltb 0 (length args))
      go [] [] = refl
      go [] (a ∷ args) = ground arith
      go (c ∷ text) args = ground arith

  -- What the parts of the code write for a layout is its text.
  render-layout_text :
      (strip : Bool) (p : Layout) → render printer r dt strip p ≡ layout_text printer r dt strip p
  unfolding render layout_text ansi_code
  render-layout_text strip done = refl
  render-layout_text strip (literal c p) = ap (◌∷◌ c) (render-layout_text strip p)
  render-layout_text strip (percent p) = ap (◌∷◌ b'%') (render-layout_text strip p)
  render-layout_text strip (field f type_ p) =
      ap₂ ◌++◌
        (write_field-fitted strip f type_ (field_text printer type_ [] [] r dt)
          ∙ ap (fitted strip f (holds_name type_)) (field_text-meaning printer r dt type_))
        (render-layout_text strip p)
  render-layout_text strip (keyed f key p) =
      ap₂ ◌++◌
        (write_field_key-fitted strip f (mdc_value_text key r.context)
          ∙ ap (fitted strip f false) (mdc_value_text-mdc_under key r.context))
        (render-layout_text strip p)
  render-layout_text strip (colour begin p) =
      ap₂ (λ t u. (if strip then [] else if begin then t else normal_code) ++ u)
        (get_log_level_color-level_code r.entry.log_level) (render-layout_text strip p)
  render-layout_text strip (stripping on p) = render-layout_text on p
  render-layout_text strip (fallback q p) =
      ap₂ ◌++◌
        (ap₂ (λ (b : Bool) (t : Bytes). if b then [] else t) is_skipped-lengths
          (render-layout_text false q))
        (render-layout_text strip p)

-- A formatter whose pattern is written from a layout that can be told from its text, with no escape
-- character in it, can be built, and writes each record as the layout says, at the time of the
-- record with the offset set: the text of the layout; for each field what its directive stands for,
-- cut and filled to its width; the colour codes, unless escape codes are stripped; and the part for
-- calls without arguments only if the record has neither a format nor arguments. How one value and
-- the digits of a number are printed, and escape codes stripped from a field, is as in the code.
pub set_pattern_lem :
    {D : Type 0} (printer : Printer D) (f : SimpleLogFormatter) (p : Layout) (offset_ms : ℤ)
    (r : LoggedRecord D)
    → is_readable p ≡ true
    → is_plain_text p ≡ true
    → (g : SimpleLogFormatter) × (set_pattern f (print p) false ≡ some g)
      × (format printer (set_timestamp_offset g offset_ms) r
          ≡ layout_text printer r (printer.date_of (r.entry.timestamp_ms +ℤ offset_ms)) false p)
unfolding set_pattern compile_pattern format format_as_pattern set_timestamp_offset is_skipped
set_pattern_lem printer f p offset_ms r h k =
    let config : Config = record { pattern = print p; json_format = false } in
    (
      record f { config = config; compiled_instructions = instructions default p [] false },
      ap (with_instructions (record f { config = config })) (compile-print default p h),
      render_lem printer r _ default p [] false refl refl h k
          ∙ render-layout_text printer r _ false p,
    )
