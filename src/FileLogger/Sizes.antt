-- ===== src/FileLogger/Sizes.antt =====
-- FileLogger.hpp: the size that the logger counts is the size of its file.
use log_it_cpp.Base.{
  ℕ, ◌+◌, ◌≡◌, ◌≢◌, ◌≤◌, refl, sym, ap, ◌∙◌, Bool, true, false, ◌&&◌, Option, none, some,
  Option-cases, List, [], ◌∷◌, ltb, if_elim, arith, length, inl, inr,
}
use log_it_cpp.Base.Ints.{ℤ}
use log_it_cpp.Base.Store.{find}
use log_it_cpp.Record.{Bytes}
use log_it_cpp.Files.{FileName, Files, name_eq, date_eq, content_of, rename}
use log_it_cpp.Files.Laws.{rename-none, rename_lem, find-open_append}
use log_it_cpp.Compression.{CompressType, no_compression, gzip, zstd, external_cmd}
use log_it_cpp.Compression.Keeps.{IsPolite, compress_file_keeps}
use log_it_cpp.FileLogger.{
  Config, FileLogger, Outside, Outcome, log_name, current_name, open_log_file, make_rotated_name,
  remove_old_logs, pack_rotated, compress_by, compress_rotated, retain_rotated, after_rename,
  renamed_to, rotate_current_file, append_message, reopen_for, rotate_for, write_log, Write,
  write_all, start_logging,
}
use log_it_cpp.FileLogger.Naming.{make_rotated_name-IsFresh}
use log_it_cpp.FileLogger.Current.{
  IsAccounted, SameCurrent, closed-IsAccounted, open-IsAccounted, append-IsAccounted,
  same-IsAccounted, deletion_keeps_current, retain_keeps_current, date-open, and_then_keeps,
  fresh_is_not_current, start-IsAccounted,
}

pub size-append :
    (message : Bytes) (n : ℕ) (s : FileLogger)
    → s.current_file_size + (length message + 1) ≤ n
    → (append_message message s).current_file_size ≤ n
unfolding append_message
size-append message n s h =
    if_elim (λ (u : FileLogger). u.current_file_size ≤ n) s.is_open _ s (λ e. h) (λ e. omega arith)

module _ (pack : CompressType → Bytes → Option Bytes)
    (run_command : Files → FileName → Files × Bool) (polite : IsPolite run_command) where
  pack_keeps_current :
      (type_ : CompressType) (rotated : FileName) (s : FileLogger)
      → rotated ≢ current_name s
      → SameCurrent s (pack_rotated pack run_command type_ rotated s)
  unfolding pack_rotated
  pack_keeps_current type_ rotated s d =
      if_elim (SameCurrent s) s.config.compress_async _ _ (λ h. (refl, refl, refl, refl))
        (λ h. (
          refl,
          refl,
          refl,
          compress_file_keeps pack run_command polite type_ s.files rotated (current_name s) refl
              (λ e. d (sym e)),
        ))

  pub compress_keeps_current :
      (rotated : FileName) (s : FileLogger)
      → rotated ≢ current_name s
      → SameCurrent s (compress_rotated pack run_command rotated s)
  unfolding compress_rotated
  compress_keeps_current rotated s d = go s.config.compress
    where
      go : (t : CompressType) → SameCurrent s (compress_by pack run_command t rotated s)
      go no_compression = unfold compress_by in (refl, refl, refl, refl)
      go gzip = unfold compress_by in pack_keeps_current gzip rotated s d
      go zstd = unfold compress_by in pack_keeps_current zstd rotated s d
      go external_cmd = unfold compress_by in pack_keeps_current external_cmd rotated s d

  -- A file that is new is empty.
  open-size :
      (o : Outside) (s : FileLogger)
      → find (current_name s) s.files ≡ none
      → IsAccounted (record (open_log_file o s.current_date_ts s).0 { current_file_size = 0 })
  unfolding open_log_file
  open-size o s h =
      if_elim (λ (u : Outcome). IsAccounted (record (u.0) { current_file_size = 0 })) o.opens _ _
        (λ k e.
          ([], find-open_append (current_name s) s.files ∙ ap (λ x. some (content_of x)) h, refl))
        (λ k e. cc)

  after_rename-IsAccounted :
      (o : Outside) (rotated : FileName) (s : FileLogger)
      → rotated ≢ current_name s
      → find (current_name s) s.files ≡ none
      → IsAccounted (after_rename pack run_command o rotated s).0
  unfolding after_rename
  after_rename-IsAccounted o rotated s d h =
      let opened = (open_log_file o s.current_date_ts s).0 in
      let emptied = record opened { current_file_size = 0 } in
      let packed = compress_rotated pack run_command rotated emptied in
      and_then_keeps IsAccounted (open_log_file o s.current_date_ts s) _
        (open-IsAccounted o s.current_date_ts s)
        (same-IsAccounted packed (retain_rotated packed) (retain_keeps_current packed) (
          same-IsAccounted emptied packed
            (compress_keeps_current rotated emptied
              (λ e. d (e ∙ ap log_name (date-open o s.current_date_ts s))))
            (open-size o s h)))

  renamed-IsAccounted :
      (o : Outside) (rotated : FileName) (s : FileLogger)
      → s.is_open ≡ false
      → rotated ≢ current_name s
      → IsAccounted
          (renamed_to pack run_command o rotated s (rename s.files (current_name s) rotated)).0
  renamed-IsAccounted o rotated s closed d = elim (Option-cases (find (current_name s) s.files)) [
    | inl e ↦
        unfold renamed_to in
        rw (rename-none s.files (current_name s) rotated e) (closed-IsAccounted s closed)
    | inr (c, e) ↦
        let (files, r, _, gone, _) =
          rename_lem s.files (current_name s) rotated c e (λ x. d (sym x)) in
        unfold renamed_to in
        rw r (after_rename-IsAccounted o rotated (record s { files = files }) d gone)
  ]

  rotate-IsAccounted :
      (o : Outside) (s : FileLogger) → IsAccounted (rotate_current_file pack run_command o s).0
  unfolding rotate_current_file
  rotate-IsAccounted o s =
      let rotated = make_rotated_name s.config.naming o s.current_date_ts s.files in
      let closed = record s { is_open = false } in
      if_elim (λ (u : Outcome). IsAccounted u.0) o.renames
        (renamed_to pack run_command o rotated closed (rename s.files (current_name s) rotated))
        (closed, true)
        (λ h. renamed-IsAccounted o rotated closed refl (
          fresh_is_not_current s.current_date_ts s.files rotated
            (make_rotated_name-IsFresh s.config.naming o s.current_date_ts s.files)))
        (λ h. closed-IsAccounted closed refl)

  pub write_log-IsAccounted :
      (o : Outside) (message : Bytes) (timestamp_ms : ℤ) (s : FileLogger)
      → IsAccounted s
      → IsAccounted (write_log pack run_command o message timestamp_ms s).0
  unfolding write_log reopen_for rotate_for
  write_log-IsAccounted o message timestamp_ms s v =
      and_then_keeps IsAccounted (reopen_for o (o.date_of timestamp_ms) s) _ reopened (
        and_then_keeps IsAccounted (rotate_for pack run_command o message u) _ rotated (
          same-IsAccounted w (remove_old_logs w) (deletion_keeps_current w)
            (append-IsAccounted message (rotate_for pack run_command o message u).0 rotated)))
    where
      u : FileLogger
      u = (reopen_for o (o.date_of timestamp_ms) s).0

      w : FileLogger
      w = append_message message (rotate_for pack run_command o message u).0

      reopened : IsAccounted (reopen_for o (o.date_of timestamp_ms) s).0
      reopened =
          if_elim (λ (r : Outcome). IsAccounted r.0)
            (date_eq (o.date_of timestamp_ms) s.current_date_ts) (s, false)
            (open_log_file o (o.date_of timestamp_ms) s) (λ h. v)
            (λ h. open-IsAccounted o (o.date_of timestamp_ms) s)

      rotated : IsAccounted (rotate_for pack run_command o message u).0
      rotated =
          if_elim (λ (r : Outcome). IsAccounted r.0)
            (ltb 0 u.config.max_file_size_bytes
              && ltb u.config.max_file_size_bytes (u.current_file_size + (length message + 1)))
            (rotate_current_file pack run_command o u) (u, false) (λ h. rotate-IsAccounted o u)
            (λ h. reopened)

  write_all-IsAccounted :
      (ws : List Write) (s : FileLogger)
      → IsAccounted s
      → IsAccounted (write_all pack run_command ws s)
  unfolding write_all
  write_all-IsAccounted [] s v = v
  write_all-IsAccounted ((o, message, t) ∷ ws) s v =
      write_all-IsAccounted ws _ (write_log-IsAccounted o message t s v)

  -- From the start of a logger on, whatever it writes and wherever opening or renaming a file
  -- fails: while its file is open, the file exists and the size that the logger counts is its size.
  pub write_all-start-IsAccounted :
      (o : Outside) (now : ℤ) (config : Config) (files : Files) (ws : List Write)
      → IsAccounted (write_all pack run_command ws (start_logging o now config files))
  write_all-start-IsAccounted o now config files ws =
      write_all-IsAccounted ws _ (start-IsAccounted o now config files)
