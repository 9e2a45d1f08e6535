-- ===== src/FileLogger/Naming.antt =====
-- FileLogger.hpp: the names of rotated files.
use log_it_cpp.Base.{
  ℕ, zero, suc, ◌+◌, ◌≡◌, ◌≢◌, ◌≤◌, ◌<◌, refl, ap, true, false, Option, none, some, [], ◌∷◌, ltb,
  ltb→lt, if_elim, arith, Bool-cases, inl, inr,
}
use log_it_cpp.Base.Ints.{ℤ}
use log_it_cpp.Base.Store.{◌=?◌, =?→eq, find, exists?}
use log_it_cpp.Record.{Bytes}
use log_it_cpp.Files.{Kind, current, indexed, timed, FileName, Files, name_eq}
use log_it_cpp.FileLogger.{
  RotationNaming, by_sequence, by_timestamp, by_timestamp_ms, Outside, name_of, first_free,
  index_of, top_index, make_sequence_name, make_timestamp_name, make_rotated_name,
}

below_top :
    (n : FileName) (c : Bytes) (files : Files)
    → (index_of n.kind ≤ top_index ((n, c) ∷ files))
      × (top_index files ≤ top_index ((n, c) ∷ files))
unfolding top_index
below_top n c files =
    if_elim (λ t. (index_of n.kind ≤ t) × (top_index files ≤ t))
      (ltb (top_index files) (index_of n.kind)) (index_of n.kind) (top_index files)
      (λ h. (omega arith, omega (arith, ltb→lt _ _ h))) (λ h. (ground (arith, h), omega arith))

-- No file has an index above the greatest.
above_top : (n : FileName) (files : Files) → top_index files < index_of n.kind → find n files ≡ none
unfolding find
above_top n [] h = refl
above_top n ((m, c) ∷ files) h =
    let b = below_top m c files in
    if_elim (λ o. o ≡ none) (m =? n) (some c) (find n files)
      (λ e. absurd (omega (arith, b.0, ap (λ (x : FileName). index_of x.kind) (=?→eq m n e))))
      (λ e. above_top n files (omega (arith, b.1)))

exists-none : (o : Option Bytes) → elim o [ none ↦ false | some v ↦ true ] ≡ false → o ≡ none
exists-none none h = refl
exists-none (some c) h = cc

-- The loop ends at a free name, not before where it began.
first_free_lem :
    (fuel : ℕ) (name : ℕ → FileName) (files : Files) (idx : ℕ)
    → ((i : ℕ) → index_of (name i).kind ≡ i)
    → top_index files < idx + fuel
    → (find (name (first_free fuel name files idx)) files ≡ none)
      × (idx ≤ first_free fuel name files idx)
unfolding first_free
first_free_lem zero name files idx e h =
    (above_top (name idx) files (omega (arith, e idx)), omega arith)
first_free_lem (suc fuel) name files idx e h =
    if_elim (λ r. (find (name r) files ≡ none) × (idx ≤ r)) (exists? (name idx) files)
      (first_free fuel name files (idx + 1)) idx
      (λ t.
        let r = first_free_lem fuel name files (idx + 1) e (omega arith) in
        (r.0, omega (arith, r.1)))
      (λ f. (exists-none (find (name idx) files) f, omega arith))

-- A name is a rotated one of the date and free.
abbrev pub IsFresh : ℤ → Files → FileName → Type 0
IsFresh base files n = (find n files ≡ none) × ((k : Kind) × (n ≡ name_of base k) × (k ≢ current))

sequence-IsFresh : (base : ℤ) (files : Files) → IsFresh base files (make_sequence_name base files)
unfolding make_sequence_name
sequence-IsFresh base files = (
  (first_free_lem (top_index files) (λ i. name_of base (indexed i)) files 1 (λ i. refl)
      (omega arith)).0,
  (_, refl, λ e. cc),
)

timestamp-IsFresh :
    (base : ℤ) (time : ℕ) (files : Files) → IsFresh base files (make_timestamp_name base time files)
unfolding make_timestamp_name
timestamp-IsFresh base time files =
    elim (Bool-cases (exists? (name_of base (timed time 0)) files)) [
      | inl e ↦ rw e (
        (first_free_lem (top_index files) (λ i. name_of base (timed time i)) files 1 (λ i. refl)
            (omega arith)).0,
        (_, refl, λ x. cc),
      )
      | inr e ↦ rw e (exists-none (find (name_of base (timed time 0)) files) e, (_, refl, λ x. cc))
    ]

-- A rotated file always gets a name of its date that no file has, under every naming policy; the
-- search for it ends.
pub make_rotated_name-IsFresh :
    (naming : RotationNaming) (o : Outside) (base : ℤ) (files : Files)
    → IsFresh base files (make_rotated_name naming o base files)
unfolding make_rotated_name
make_rotated_name-IsFresh by_sequence o base files = sequence-IsFresh base files
make_rotated_name-IsFresh by_timestamp o base files = timestamp-IsFresh base o.time_of_day files
make_rotated_name-IsFresh by_timestamp_ms o base files =
    timestamp-IsFresh base o.time_of_day_ms files
