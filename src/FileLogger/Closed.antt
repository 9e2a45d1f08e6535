-- ===== src/FileLogger/Closed.antt =====
-- FileLogger.hpp: writes after a log file could not be opened.
use log_it_cpp.Base.{
  ◌+◌, ◌≡◌, refl, sym, ap, subst, ◌∙◌, Bool, true, false, ◌&&◌, Option, List, [], ◌∷◌, ◌++◌, ltb,
  if◌then◌else◌, length, All,
}
use log_it_cpp.Base.Ints.{ℤ}
use log_it_cpp.Base.Store.{find}
use log_it_cpp.Record.{Bytes}
use log_it_cpp.Files.{FileName, Files, name_eq, date_eq, append_to, open_append, content_of}
use log_it_cpp.Compression.{CompressType}
use log_it_cpp.FileLogger.{
  Config, FileLogger, Outside, Outcome, and_then, current_name, log_name, open_log_file,
  remove_old_logs, rotate_current_file, append_message, reopen_for, rotate_for, write_log, Write,
  write_all,
}
use log_it_cpp.FileLogger.Current.{SameCurrent, deletion_keeps_current, same_trans}

module _ (pack : CompressType → Bytes → Option Bytes)
    (run_command : Files → FileName → Files × Bool) where
  silent-write_log :
      (o : Outside) (message : Bytes) (timestamp_ms : ℤ) (s : FileLogger)
      → s.is_open ≡ false
      → s.config.max_file_size_bytes ≡ 0
      → date_eq (o.date_of timestamp_ms) s.current_date_ts ≡ true
      → write_log pack run_command o message timestamp_ms s ≡ (remove_old_logs s, false)
  unfolding write_log reopen_for rotate_for append_message
  silent-write_log o message timestamp_ms s c m d =
      let rest = λ (u : FileLogger).
        and_then (rotate_for pack run_command o message u)
          λ v. (remove_old_logs (append_message message v), false) in
      ap (λ b. and_then (if b then (s, false) else open_log_file o (o.date_of timestamp_ms) s) rest)
        d
      ∙ ap
          (λ k.
            and_then
              (if ltb 0 k
                  && ltb s.config.max_file_size_bytes (s.current_file_size + (length message + 1))
                then rotate_current_file pack run_command o s
                else (s, false))
              (λ v. (remove_old_logs (append_message message v), false)))
          m
      ∙ ap
          (λ b. (
            remove_old_logs (
                if b
                then record s {
                  files = append_to s.files (current_name s) (message ++ 10 ∷ []);
                  current_file_size = s.current_file_size + (length message + 1);
                }
                else s),
            false,
          ))
          c

  -- A run of writes of the current date.
  abbrev pub OfDate : ℤ → List Write → Type 0
  OfDate date ws = All (λ w. date_eq (w.0.date_of w.2) date ≡ true) ws

  write_all-closed :
      (ws : List Write) (s : FileLogger)
      → s.is_open ≡ false
      → s.config.max_file_size_bytes ≡ 0
      → OfDate s.current_date_ts ws
      → SameCurrent s (write_all pack run_command ws s)
        × ((write_all pack run_command ws s).config ≡ s.config)
  unfolding write_all remove_old_logs
  write_all-closed [] s c m d = ((refl, refl, refl, refl), refl)
  write_all-closed ((o, message, t) ∷ ws) s c m d =
      let u = remove_old_logs s in
      let (v, k) = write_all-closed ws u c m d.1 in
      subst
        (λ (r : Outcome).
          SameCurrent s (write_all pack run_command ws r.0)
          × ((write_all pack run_command ws r.0).config ≡ s.config))
        (sym (silent-write_log o message t s c m d.0))
        (same_trans s u (write_all pack run_command ws u) (deletion_keeps_current s) v, k)

  -- When a log file could not be opened and there is no size limit, the logger does not try again
  -- while the date stays the same: whatever is written with that date, the current file stays as it was
  -- (or missing), and none of the writes raises an exception, even where opening would succeed.
  pub write_all-after_failure :
      (o : Outside) (date : ℤ) (s : FileLogger) (ws : List Write)
      → o.opens ≡ false
      → s.config.max_file_size_bytes ≡ 0
      → OfDate date ws
      → let u = (open_log_file o date s).0 in
        let v = write_all pack run_command ws u in
        ((open_log_file o date s).1 ≡ true)
        × (find (log_name date) v.files ≡ find (log_name date) s.files)
        × ((o' : Outside) (message : Bytes) (t : ℤ)
            → date_eq (o'.date_of t) date ≡ true
            → (write_log pack run_command o' message t v).1 ≡ false)
  unfolding open_log_file
  write_all-after_failure o date s ws h m d =
      let u = record s { current_date_ts = date; is_open = false } in
      let (v, k) = write_all-closed ws u refl m d in
      let w = write_all pack run_command ws u in
      subst
        (λ (r : Outcome).
          (r.1 ≡ true)
          × (find (log_name date) (write_all pack run_command ws r.0).files
              ≡ find (log_name date) s.files)
          × ((o' : Outside) (message : Bytes) (t : ℤ)
              → date_eq (o'.date_of t) date ≡ true
              → (write_log pack run_command o' message t (write_all pack run_command ws r.0)).1
                ≡ false))
        (sym (
          ap
            (λ b.
              if b
              then (
                record s {
                  files = open_append s.files (log_name date);
                  current_date_ts = date;
                  current_file_size = length (content_of (find (log_name date) s.files));
                  is_open = true;
                },
                false,
              )
              else (u, true))
            h))
        (
          refl,
          v.3,
          λ o' message t e.
              ap (λ (r : Outcome). r.1)
                (silent-write_log o' message t w v.1
                  (ap (λ (x : Config). x.max_file_size_bytes) k ∙ m)
                  (ap (date_eq (o'.date_of t)) v.0 ∙ e)),
        )
