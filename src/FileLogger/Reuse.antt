-- ===== src/FileLogger/Reuse.antt =====
-- FileLogger.hpp: sequence names that are free again. A number whose file was removed or compressed
-- is used for the next rotation, and the code takes it for the oldest.
use log_it_cpp.Base.{
  ℕ, zero, suc, ◌+◌, ◌≡◌, ◌≢◌, refl, sym, ap, subst, ◌∙◌, Bool, true, false, Option, none, some, [],
  ◌∷◌, ◌++◌, ltb, if◌then◌else◌,
}
use log_it_cpp.Base.Ints.{ℤ}
use log_it_cpp.Base.Store.{find, put, remove}
use log_it_cpp.Record.{Bytes}
use log_it_cpp.Files.{indexed, gz, FileName, Files, name_eq}
use log_it_cpp.Files.Laws.{find-put_self, find-put_other, find-remove_other, find-remove_self}
use log_it_cpp.Compression.{CompressType, gzip, compress_file}
use log_it_cpp.Compression.Keeps.{packed-files}
use log_it_cpp.FileLogger.{
  by_sequence, FileLogger, Outside, Outcome, name_of, log_name, current_name, make_rotated_name,
  make_sequence_name, first_free, top_index, enforce_rotation_retention, pack_rotated, compress_by,
  compress_rotated, retain_rotated, rotate_current_file,
}
use log_it_cpp.FileLogger.Losses.{moved, finished, new_name, rotate-moved}

pub numbered_is_not_current : (d : ℤ) (i : ℕ) → name_of d (indexed i) ≢ log_name d
numbered_is_not_current d i x = cc (ap (λ (y : FileName). y.kind) x)

-- The first number, when it is free, is the next one.
first_free-here :
    (fuel : ℕ) (name : ℕ → FileName) (files : Files) (i : ℕ)
    → find (name i) files ≡ none
    → first_free fuel name files i ≡ i
unfolding first_free
first_free-here zero name files i h = refl
first_free-here (suc fuel) name files i h =
    ap
      (λ (o : Option Bytes).
        if elim o [ none ↦ false | some v ↦ true ] then first_free fuel name files (i + 1) else i)
      h

pub first_sequence_name :
    (o : Outside) (s : FileLogger)
    → s.config.naming ≡ by_sequence
    → find (name_of s.current_date_ts (indexed 1)) s.files ≡ none
    → new_name o s ≡ name_of s.current_date_ts (indexed 1)
unfolding make_rotated_name make_sequence_name
first_sequence_name o s n h =
    ap (λ r. make_rotated_name r o s.current_date_ts s.files) n
    ∙ ap (λ i. name_of s.current_date_ts (indexed i))
        (first_free-here (top_index s.files) (λ i. name_of s.current_date_ts (indexed i)) s.files 1
          h)

module _ (pack : CompressType → Bytes → Option Bytes)
    (run_command : Files → FileName → Files × Bool) where
  finished-packed :
      (s : FileLogger) (r : FileName) (files : Files) (c z : Bytes)
      → s.config.compress ≡ gzip
      → s.config.compress_async ≡ false
      → s.config.max_rotated_files ≡ 0
      → find r files ≡ some c
      → pack gzip c ≡ some z
      → (finished pack run_command s r files).files
        ≡ remove r (put (record r { packing = gz }) z files)
  unfolding compress_rotated compress_by pack_rotated retain_rotated
  finished-packed s r files c z g a n e p =
      let u = record s { files = files; current_file_size = 0; is_open = true } in
      let packed = record u { files = (compress_file pack run_command gzip files r).0 } in
      ap (λ t. (retain_rotated (compress_by pack run_command t r u)).files) g
      ∙ ap
          (λ b.
            (retain_rotated
              (if b then record u { to_compress = s.to_compress ++ r ∷ [] } else packed)).files)
          a
      ∙ ap
          (λ m.
            (if ltb 0 m
              then record packed {
                files =
                    enforce_rotation_retention s.current_date_ts s.config.max_rotated_files
                      packed.files;
              }
              else packed).files)
          n
      ∙ packed-files pack run_command files r c z e p

  -- Under sequence names with gzip on the spot and no retention, a rotation that succeeds while the
  -- number 1 is free leaves it free again, and 001.log.gz holds the content of this rotation,
  -- whatever it held before.
  pub rotate-overwrites :
      (o : Outside) (s : FileLogger) (c z : Bytes)
      → o.opens ≡ true
      → o.renames ≡ true
      → s.config.naming ≡ by_sequence
      → s.config.compress ≡ gzip
      → s.config.compress_async ≡ false
      → s.config.max_rotated_files ≡ 0
      → find (current_name s) s.files ≡ some c
      → pack gzip c ≡ some z
      → find (name_of s.current_date_ts (indexed 1)) s.files ≡ none
      → let first = name_of s.current_date_ts (indexed 1) in
        let u = (rotate_current_file pack run_command o s).0 in
        (find first u.files ≡ none)
        × (find (record first { packing = gz }) u.files ≡ some z)
        × (find (current_name s) u.files ≡ some [])
  rotate-overwrites o s c z h k n g a m e p f =
      let first = name_of s.current_date_ts (indexed 1) in
      let files = moved s first c in
      let held =
        find-put_other (current_name s) first [] (put first c (remove (current_name s) s.files))
          (λ x. numbered_is_not_current s.current_date_ts 1 (sym x))
        ∙ find-put_self first c (remove (current_name s) s.files) in
      subst
        (λ u.
          (find first u ≡ none)
          × (find (record first { packing = gz }) u ≡ some z)
          × (find (current_name s) u ≡ some []))
        (sym (
          ap (λ (u : Outcome). u.0.files) (rotate-moved pack run_command o s c h k e)
          ∙ ap (λ r. (finished pack run_command s r (moved s r c)).files)
              (first_sequence_name o s n f)
          ∙ finished-packed s first files c z g a m held p))
        (
          find-remove_self first _,
          find-remove_other first (record first { packing = gz }) _
                (λ x. cc (ap (λ (y : FileName). y.packing) x))
              ∙ find-put_self (record first { packing = gz }) z files,
          find-remove_other first (current_name s) _
                (λ x. numbered_is_not_current s.current_date_ts 1 (sym x))
              ∙ find-put_other (record first { packing = gz }) (current_name s) z files
                  (λ x. cc (ap (λ (y : FileName). y.kind) x))
              ∙ find-put_self (current_name s) [] _,
        )
