-- ===== src/Format/Ansi.antt =====
-- PatternCompiler.hpp: what remove_ansi_escape_codes leaves.
use log_it_cpp.Base.{
  ℕ, ◌≡◌, refl, sym, ap, ◌∙◌, Bool, true, false, ◌&&◌, not, [], ◌∷◌, ◌++◌, ◌==◌, all, inl, inr,
  Bool-cases, and_parts, arith,
}
use log_it_cpp.Record.{Bytes}
use log_it_cpp.Format.{is_letter, strip_from, remove_ansi_escape_codes}

-- A coloured text: plain pieces, each followed by a code with its parameters and final letter.
pub data Coloured : Type 0 where
  plain : Bytes → Coloured
  coded : Bytes → Bytes → ℕ → Coloured → Coloured

abbrev pub rendered : Coloured → Bytes
rendered (plain text) = text
rendered (coded text parameters final rest) =
    text ++ (27 ∷ 91 ∷ (parameters ++ final ∷ rendered rest))

abbrev pub text_of : Coloured → Bytes
text_of (plain text) = text
text_of (coded text parameters final rest) = text ++ text_of rest

abbrev pub no_escape : Bytes → Bool
no_escape text = all (λ c. not (c == 27)) text

-- The pieces hold no escape character, and only the last byte of a code is a letter.
abbrev pub IsPlain : Coloured → Type 0
IsPlain (plain text) = no_escape text ≡ true
IsPlain (coded text parameters final rest) =
    (no_escape text ≡ true)
    × (all (λ c. not (is_letter c)) parameters ≡ true)
    × (is_letter final ≡ true)
    × IsPlain rest

first_plain : (c : ℕ) (b : Bool) → (not (c == 27) && b) ≡ true → (c == 27) ≡ false
first_plain c b h = ground (arith, h)

strip-plain : (text : Bytes) → no_escape text ≡ true → strip_from false text ≡ text
unfolding strip_from
strip-plain [] h = refl
strip-plain (c ∷ []) h = refl
strip-plain (c ∷ d ∷ text) h =
    rw (first_plain c _ h) (ap (◌∷◌ c) (strip-plain (d ∷ text) (and_parts _ _ h).1))

strip-text :
    (text rest : Bytes)
    → no_escape text ≡ true
    → strip_from false (text ++ (27 ∷ 91 ∷ rest)) ≡ text ++ strip_from true rest
unfolding strip_from
strip-text [] rest h = refl
strip-text (c ∷ []) rest h = rw (first_plain c true h) refl
strip-text (c ∷ d ∷ text) rest h =
    rw (first_plain c _ h) (ap (◌∷◌ c) (strip-text (d ∷ text) rest (and_parts _ _ h).1))

strip-code :
    (parameters : Bytes) (final : ℕ) (rest : Bytes)
    → all (λ c. not (is_letter c)) parameters ≡ true
    → is_letter final ≡ true
    → strip_from true (parameters ++ final ∷ rest) ≡ strip_from false rest
unfolding strip_from
strip-code [] final rest h k = rw k refl
strip-code (c ∷ parameters) final rest h k = elim (Bool-cases (is_letter c)) [
  | inl e ↦ cc (sym (ap (λ b. not b && all (λ c. not (is_letter c)) parameters) e) ∙ h)
  | inr e ↦ rw e (strip-code parameters final rest (and_parts _ _ h).1 k)
]

strip-coloured : (t : Coloured) → IsPlain t → strip_from false (rendered t) ≡ text_of t
strip-coloured (plain text) h = strip-plain text h
strip-coloured (coded text parameters final rest) h =
    strip-text text (parameters ++ final ∷ rendered rest) h.0
    ∙ ap (◌++◌ text) (strip-code parameters final (rendered rest) h.1 h.2 ∙ strip-coloured rest h.3)

-- Of a text coloured by codes, stripping leaves the text, every byte of it and nothing else.
pub remove-rendered : (t : Coloured) → IsPlain t → remove_ansi_escape_codes (rendered t) ≡ text_of t
unfolding remove_ansi_escape_codes
remove-rendered t h = strip-coloured t h
