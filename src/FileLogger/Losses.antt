-- ===== src/FileLogger/Losses.antt =====
-- FileLogger.hpp: what a rotation does to the other files.
use log_it_cpp.Base.{
  ◌≡◌, ◌≢◌, refl, sym, ap, subst, ◌∙◌, Bool, true, false, Option, none, some, [], ltb,
  if◌then◌else◌,
}
use log_it_cpp.Base.Store.{find, put, remove}
use log_it_cpp.Record.{Bytes}
use log_it_cpp.Files.{FileName, Files, name_eq, open_append, rename}
use log_it_cpp.Files.Laws.{
  rename-some, open_append-none, find-put_self, find-put_other, find-remove_other, find-remove_self,
}
use log_it_cpp.Compression.{CompressType, no_compression}
use log_it_cpp.FileLogger.{
  FileLogger, Outside, Outcome, current_name, open_log_file, make_rotated_name,
  enforce_rotation_retention, compress_by, compress_rotated, retain_rotated, after_rename,
  renamed_to, rotate_current_file,
}
use log_it_cpp.FileLogger.Naming.{make_rotated_name-IsFresh}
use log_it_cpp.FileLogger.Current.{fresh_is_not_current}

-- The files after a rotation that meets no failure, before compression and retention.
abbrev pub moved : FileLogger → FileName → Bytes → Files
moved s rotated c = put (current_name s) [] (put rotated c (remove (current_name s) s.files))

abbrev pub new_name : Outside → FileLogger → FileName
new_name o s = make_rotated_name s.config.naming o s.current_date_ts s.files

new_is_not_current : (o : Outside) (s : FileLogger) → new_name o s ≢ current_name s
new_is_not_current o s =
    fresh_is_not_current s.current_date_ts s.files (new_name o s)
      (make_rotated_name-IsFresh s.config.naming o s.current_date_ts s.files)

pub find-moved_self :
    (o : Outside) (s : FileLogger) (c : Bytes)
    → find (new_name o s) (moved s (new_name o s) c) ≡ some c
find-moved_self o s c =
    find-put_other (current_name s) (new_name o s) [] _ (λ e. new_is_not_current o s (sym e))
    ∙ find-put_self (new_name o s) c _

pub find-moved_other :
    (s : FileLogger) (rotated m : FileName) (c : Bytes)
    → m ≢ rotated
    → m ≢ current_name s
    → find m (moved s rotated c) ≡ find m s.files
find-moved_other s rotated m c h k =
    find-put_other (current_name s) m [] _ (λ e. k (sym e))
    ∙ find-put_other rotated m c _ (λ e. h (sym e))
    ∙ find-remove_other (current_name s) m s.files k

module _ (pack : CompressType → Bytes → Option Bytes)
    (run_command : Files → FileName → Files × Bool) where
  -- What is left of a successful rotation.
  abbrev pub finished : FileLogger → FileName → Files → FileLogger
  finished s rotated files = retain_rotated (
      compress_rotated pack run_command rotated
        (record s { files = files; current_file_size = 0; is_open = true }))

  after-opens :
      (o : Outside) (rotated : FileName) (s : FileLogger)
      → o.opens ≡ true
      → after_rename pack run_command o rotated s
        ≡ (finished s rotated (open_append s.files (current_name s)), false)
  unfolding after_rename open_log_file
  after-opens o rotated s h = rw h refl

  pub rotate-moved :
      (o : Outside) (s : FileLogger) (c : Bytes)
      → o.opens ≡ true
      → o.renames ≡ true
      → find (current_name s) s.files ≡ some c
      → rotate_current_file pack run_command o s
        ≡ (finished s (new_name o s) (moved s (new_name o s) c), false)
  unfolding rotate_current_file renamed_to
  rotate-moved o s c h k e =
      let rotated = new_name o s in
      let closed = record s { is_open = false } in
      let files = put rotated c (remove (current_name s) s.files) in
      ap
        (λ b.
          if b
          then renamed_to pack run_command o rotated closed
              (rename s.files (current_name s) rotated)
          else (closed, true))
        k
      ∙ ap (renamed_to pack run_command o rotated closed)
          (rename-some s.files (current_name s) rotated c e)
      ∙ after-opens o rotated (record closed { files = files }) h
      ∙ ap (λ f. (finished s rotated f, false))
          (open_append-none files (current_name s) (
            find-put_other rotated (current_name s) c _ (new_is_not_current o s)
            ∙ find-remove_self (current_name s) s.files))

  finished-files :
      (s : FileLogger) (rotated : FileName) (files : Files)
      → s.config.compress ≡ no_compression
      → s.config.max_rotated_files ≡ 0
      → (finished s rotated files).files ≡ files
  unfolding compress_rotated compress_by retain_rotated
  finished-files s rotated files nc nr =
      let u = record s { files = files; current_file_size = 0; is_open = true } in
      ap (λ t. (retain_rotated (compress_by pack run_command t rotated u)).files) nc
      ∙ ap
          (λ m.
            (if ltb 0 m
              then record u {
                files =
                    enforce_rotation_retention s.current_date_ts s.config.max_rotated_files files;
              }
              else u).files)
          nr

  -- Without compression and retention, a rotation in which renaming and opening succeed loses
  -- nothing: no file had the new name, which then holds what was in the current file, the current
  -- file is empty, and every other file is as it was.
  pub rotate_keeps_contents :
      (o : Outside) (s : FileLogger) (c : Bytes)
      → o.opens ≡ true
      → o.renames ≡ true
      → find (current_name s) s.files ≡ some c
      → s.config.compress ≡ no_compression
      → s.config.max_rotated_files ≡ 0
      → let u = (rotate_current_file pack run_command o s).0 in
        (find (make_rotated_name s.config.naming o s.current_date_ts s.files) s.files ≡ none)
        × (find (make_rotated_name s.config.naming o s.current_date_ts s.files) u.files ≡ some c)
        × (find (current_name s) u.files ≡ some [])
        × ((m : FileName)
            → m ≢ make_rotated_name s.config.naming o s.current_date_ts s.files
            → m ≢ current_name s
            → find m u.files ≡ find m s.files)
  rotate_keeps_contents o s c h k e nc nr =
      let files = moved s (new_name o s) c in
      let same = sym (
        ap (λ (u : Outcome). u.0.files) (rotate-moved o s c h k e)
        ∙ finished-files s (new_name o s) files nc nr) in
      subst
        (λ f.
          (find (new_name o s) s.files ≡ none)
          × (find (new_name o s) f ≡ some c)
          × (find (current_name s) f ≡ some [])
          × ((m : FileName) → m ≢ new_name o s → m ≢ current_name s → find m f ≡ find m s.files))
        same
        (
          (make_rotated_name-IsFresh s.config.naming o s.current_date_ts s.files).0,
          find-moved_self o s c,
          find-put_self (current_name s) [] _,
          λ m x y. find-moved_other s (new_name o s) m c x y,
        )
