-- ===== src/FileLogger/Limit.antt =====
-- FileLogger.hpp: the size limit of the current file.
use log_it_cpp.Base.{
  ℕ, ◌+◌, ◌≡◌, ◌≢◌, ◌≤◌, ◌<◌, refl, sym, ap, subst, ◌∙◌, Bool, true, false, ◌&&◌, Option, none,
  some, ltb, if_elim, arith, length,
}
use log_it_cpp.Base.Ints.{ℤ}
use log_it_cpp.Base.Store.{find}
use log_it_cpp.Record.{Bytes}
use log_it_cpp.Files.{FileName, Files, name_eq, date_eq, rename}
use log_it_cpp.Compression.{CompressType}
use log_it_cpp.Compression.Keeps.{IsPolite}
use log_it_cpp.FileLogger.{
  Config, FileLogger, Outside, Outcome, and_then, current_name, log_name, open_log_file,
  make_rotated_name, remove_old_logs, compress_rotated, after_rename, renamed_to,
  rotate_current_file, append_message, reopen_for, rotate_for, write_log,
}
use log_it_cpp.FileLogger.Naming.{make_rotated_name-IsFresh}
use log_it_cpp.FileLogger.Current.{
  IsAccounted, deletion_keeps_current, retain_keeps_current, date-open, fresh_is_not_current,
}
use log_it_cpp.FileLogger.Sizes.{compress_keeps_current, write_log-IsAccounted, size-append}

-- A chain without an exception ran both parts.
and_then_ran :
    (r : Outcome) (k : FileLogger → Outcome) → (and_then r k).1 ≡ false → and_then r k ≡ k r.0
and_then_ran (s, true) k h = cc
and_then_ran (s, false) k h = refl

config-open :
    (o : Outside) (date : ℤ) (s : FileLogger) → (open_log_file o date s).0.config ≡ s.config
unfolding open_log_file
config-open o date s =
    if_elim (λ (u : Outcome). u.0.config ≡ s.config) o.opens _ _ (λ h. refl) (λ h. refl)

config-reopen :
    (o : Outside) (date : ℤ) (s : FileLogger) → (reopen_for o date s).0.config ≡ s.config
unfolding reopen_for
config-reopen o date s =
    if_elim (λ (u : Outcome). u.0.config ≡ s.config) (date_eq date s.current_date_ts) (s, false)
      (open_log_file o date s) (λ h. refl) (λ h. config-open o date s)

no_room : (n add max : ℕ) → (ltb 0 max && ltb max (n + add)) ≡ false → 0 < max → n + add ≤ max
no_room n add max h k = ground arith

module _ (pack : CompressType → Bytes → Option Bytes)
    (run_command : Files → FileName → Files × Bool) (polite : IsPolite run_command) where
  size-after_rename :
      (o : Outside) (rotated : FileName) (s : FileLogger)
      → rotated ≢ current_name s
      → (after_rename pack run_command o rotated s).1 ≡ false
      → (after_rename pack run_command o rotated s).0.current_file_size ≡ 0
  unfolding after_rename
  size-after_rename o rotated s d h =
      let opened = (open_log_file o s.current_date_ts s).0 in
      let emptied = record opened { current_file_size = 0 } in
      let packed = compress_rotated pack run_command rotated emptied in
      ap (λ (u : Outcome). u.0.current_file_size)
        (and_then_ran (open_log_file o s.current_date_ts s) _ h)
      ∙ (retain_keeps_current packed).2
      ∙ (compress_keeps_current pack run_command polite rotated emptied
          (λ e. d (e ∙ ap log_name (date-open o s.current_date_ts s)))).2

  size-renamed :
      (o : Outside) (rotated : FileName) (s : FileLogger)
      → rotated ≢ current_name s
      → (files : Option Files) → (renamed_to pack run_command o rotated s files).1 ≡ false
      → (renamed_to pack run_command o rotated s files).0.current_file_size ≡ 0
  unfolding renamed_to
  size-renamed o rotated s d none h = cc
  size-renamed o rotated s d (some files) h =
      size-after_rename o rotated (record s { files = files }) d h

  size-rotate :
      (o : Outside) (s : FileLogger)
      → (rotate_current_file pack run_command o s).1 ≡ false
      → (rotate_current_file pack run_command o s).0.current_file_size ≡ 0
  unfolding rotate_current_file
  size-rotate o s =
      let rotated = make_rotated_name s.config.naming o s.current_date_ts s.files in
      let closed = record s { is_open = false } in
      if_elim (λ (u : Outcome). u.1 ≡ false → u.0.current_file_size ≡ 0) o.renames
        (renamed_to pack run_command o rotated closed (rename s.files (current_name s) rotated))
        (closed, true)
        (λ k.
          size-renamed o rotated closed
            (fresh_is_not_current s.current_date_ts s.files rotated
              (make_rotated_name-IsFresh s.config.naming o s.current_date_ts s.files))
            _)
        (λ k h. cc)

  -- After the rotation there is room for a message that is not above the limit by itself.
  room-rotate_for :
      (o : Outside) (message : Bytes) (s : FileLogger)
      → 0 < s.config.max_file_size_bytes
      → length message + 1 ≤ s.config.max_file_size_bytes
      → (rotate_for pack run_command o message s).1 ≡ false
      → (rotate_for pack run_command o message s).0.current_file_size + (length message + 1)
        ≤ s.config.max_file_size_bytes
  unfolding rotate_for
  room-rotate_for o message s p m =
      if_elim
        (λ (u : Outcome).
          u.1 ≡ false → u.0.current_file_size + (length message + 1) ≤ s.config.max_file_size_bytes)
        (ltb 0 s.config.max_file_size_bytes
          && ltb s.config.max_file_size_bytes (s.current_file_size + (length message + 1)))
        (rotate_current_file pack run_command o s) (s, false)
        (λ k h. omega (arith, size-rotate o s h))
        (λ k h. no_room s.current_file_size (length message + 1) s.config.max_file_size_bytes k p)

  size-write_log :
      (o : Outside) (message : Bytes) (timestamp_ms : ℤ) (s : FileLogger)
      → 0 < s.config.max_file_size_bytes
      → length message + 1 ≤ s.config.max_file_size_bytes
      → (write_log pack run_command o message timestamp_ms s).1 ≡ false
      → (write_log pack run_command o message timestamp_ms s).0.current_file_size
        ≤ s.config.max_file_size_bytes
  unfolding write_log
  size-write_log o message timestamp_ms s p m h =
      let u = (reopen_for o (o.date_of timestamp_ms) s).0 in
      let r = rotate_for pack run_command o message u in
      let w = append_message message r.0 in
      let same = config-reopen o (o.date_of timestamp_ms) s in
      let ran = and_then_ran (reopen_for o (o.date_of timestamp_ms) s) _ h in
      let quiet = ap (λ (x : Outcome). x.1) (sym ran) ∙ h in
      let ran' = and_then_ran r (λ v. (remove_old_logs (append_message message v), false)) quiet in
      subst (λ n. n ≤ s.config.max_file_size_bytes)
        (sym
          (ap (λ (x : Outcome). x.0.current_file_size) (ran ∙ ran') ∙ (deletion_keeps_current w).2))
        (size-append message s.config.max_file_size_bytes r.0 (
          subst
            (λ (c : Config). r.0.current_file_size + (length message + 1) ≤ c.max_file_size_bytes)
            same
            (room-rotate_for o message u
              (subst (λ (c : Config). 0 < c.max_file_size_bytes) (sym same) p)
              (subst (λ (c : Config). length message + 1 ≤ c.max_file_size_bytes) (sym same) m)
              (rotated_quietly r quiet))))
    where
      rotated_quietly :
          (r : Outcome)
          → (and_then r (λ v. (remove_old_logs (append_message message v), false))).1 ≡ false
          → r.1 ≡ false
      rotated_quietly (v, true) e = e
      rotated_quietly (v, false) e = refl

  -- With a size limit, a message that is not above it by itself is written without going over it:
  -- when the call raises no exception and leaves the current file open, that file is not larger
  -- than the limit, whatever the logger's file held before.
  pub length-write_log :
      (o : Outside) (message : Bytes) (timestamp_ms : ℤ) (s : FileLogger)
      → IsAccounted s
      → 0 < s.config.max_file_size_bytes
      → length message + 1 ≤ s.config.max_file_size_bytes
      → (write_log pack run_command o message timestamp_ms s).1 ≡ false
      → (write_log pack run_command o message timestamp_ms s).0.is_open ≡ true
      → let u = (write_log pack run_command o message timestamp_ms s).0 in
        (c : Bytes) × (find (current_name u) u.files ≡ some c)
        × (length c ≤ s.config.max_file_size_bytes)
  length-write_log o message timestamp_ms s v p m h e =
      let (c, f, l) = write_log-IsAccounted pack run_command polite o message timestamp_ms s v e in
      (c, f, omega (arith, l, size-write_log o message timestamp_ms s p m h))
