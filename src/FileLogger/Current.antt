-- ===== src/FileLogger/Current.antt =====
-- FileLogger.hpp: what single steps do to the current file and its counted size.
use log_it_cpp.Base.{
  ℕ, ◌+◌, ◌*◌, ◌≡◌, ◌≢◌, refl, sym, ap, ◌∙◌, true, false, not, none, some, [], ◌∷◌, ◌++◌, ltb,
  if◌then◌else◌, if_elim, arith, length, length-append,
}
use log_it_cpp.Base.Ints.{ℤ, pos, ◌-ℤ◌, ltb_ℤ, -ℤ_parts}
use log_it_cpp.Base.Store.{find, find-retain}
use log_it_cpp.Record.{Bytes}
use log_it_cpp.Files.{FileName, Files, name_eq, content_of, append_to}
use log_it_cpp.Files.Laws.{find-open_append, find-append_to}
use log_it_cpp.FileLogger.{
  Config, FileLogger, Outside, Outcome, and_then, log_name, current_name, open_log_file,
  seconds_per_day, remove_old_logs, retain_rotated, append_message, start_logging,
}
use log_it_cpp.FileLogger.Naming.{IsFresh}
use log_it_cpp.FileLogger.Retention.{retention_keeps_current}

-- While the file is open it exists, and its size is the one that is counted.
abbrev pub IsAccounted : FileLogger → Type 0
IsAccounted s =
    s.is_open ≡ true
    → (c : Bytes) × (find (current_name s) s.files ≡ some c) × (length c ≡ s.current_file_size)

pub closed-IsAccounted : (s : FileLogger) → s.is_open ≡ false → IsAccounted s
closed-IsAccounted s h o = cc

pub open-IsAccounted :
    (o : Outside) (date : ℤ) (s : FileLogger) → IsAccounted (open_log_file o date s).0
unfolding open_log_file
open-IsAccounted o date s =
    if_elim (λ (u : Outcome). IsAccounted u.0) o.opens _ _
      (λ h e.
        (content_of (find (log_name date) s.files), find-open_append (log_name date) s.files, refl))
      (λ h e. cc)

pub append-IsAccounted :
    (message : Bytes) (s : FileLogger) → IsAccounted s → IsAccounted (append_message message s)
unfolding append_message
append-IsAccounted message s v =
    if_elim IsAccounted s.is_open
      (record s {
        files = append_to s.files (current_name s) (message ++ 10 ∷ []);
        current_file_size = s.current_file_size + (length message + 1);
      })
      s
      (λ h e.
        let (c, f, l) = v h in
        (
          c ++ (message ++ 10 ∷ []),
          find-append_to (current_name s) s.files (message ++ 10 ∷ [])
              ∙ ap (λ x. some (content_of x ++ (message ++ 10 ∷ []))) f,
          omega (arith, length-append c (message ++ 10 ∷ []), length-append message (10 ∷ []), l),
        ))
      (λ h. v)

not_old : (d : ℤ) (days : ℕ) → ltb_ℤ d (d -ℤ pos (seconds_per_day * days)) ≡ false
not_old d days = ground (arith, -ℤ_parts d (pos (seconds_per_day * days)))

-- A step that keeps the current file, its date and its counted size.
abbrev pub SameCurrent : FileLogger → FileLogger → Type 0
SameCurrent s u =
    (u.current_date_ts ≡ s.current_date_ts)
    × (u.is_open ≡ s.is_open)
    × (u.current_file_size ≡ s.current_file_size)
    × (find (current_name s) u.files ≡ find (current_name s) s.files)

-- Two steps one after the other.
pub same_trans : (s u v : FileLogger) → SameCurrent s u → SameCurrent u v → SameCurrent s v
same_trans s u v a b = (
  b.0 ∙ a.0,
  b.1 ∙ a.1,
  b.2 ∙ a.2,
  ap (λ d. find (log_name d) v.files) (sym a.0)
      ∙ b.3
      ∙ ap (λ d. find (log_name d) u.files) a.0
      ∙ a.3,
)

pub same-IsAccounted : (s u : FileLogger) → SameCurrent s u → IsAccounted s → IsAccounted u
same-IsAccounted s u (d, o, z, f) v e =
    let (c, g, l) = v (sym o ∙ e) in (c, ap (λ x. find (log_name x) u.files) d ∙ f ∙ g, l ∙ sym z)

pub deletion_keeps_current : (s : FileLogger) → SameCurrent s (remove_old_logs s)
unfolding remove_old_logs
deletion_keeps_current s =
    let threshold = s.current_date_ts -ℤ pos (seconds_per_day * s.config.auto_delete_days) in
    (
      refl,
      refl,
      refl,
      find-retain (λ n. not (ltb_ℤ n.date threshold)) (current_name s) s.files
          ∙ ap (λ b. if not b then find (current_name s) s.files else none)
              (not_old s.current_date_ts s.config.auto_delete_days),
    )

pub retain_keeps_current : (s : FileLogger) → SameCurrent s (retain_rotated s)
unfolding retain_rotated
retain_keeps_current s =
    if_elim (SameCurrent s) (ltb 0 s.config.max_rotated_files) _ s
      (λ h. (
        refl,
        refl,
        refl,
        retention_keeps_current s.current_date_ts s.config.max_rotated_files s.files,
      ))
      (λ h. (refl, refl, refl, refl))

pub date-open :
    (o : Outside) (date : ℤ) (s : FileLogger) → (open_log_file o date s).0.current_date_ts ≡ date
unfolding open_log_file
date-open o date s =
    if_elim (λ (u : Outcome). u.0.current_date_ts ≡ date) o.opens _ _ (λ h. refl) (λ h. refl)

pub and_then_keeps :
    (P : FileLogger → Type 0) (r : Outcome) (k : FileLogger → Outcome)
    → P r.0
    → P (k r.0).0
    → P (and_then r k).0
and_then_keeps P (s, true) k p q = p
and_then_keeps P (s, false) k p q = q

pub fresh_is_not_current :
    (base : ℤ) (files : Files) (n : FileName) → IsFresh base files n → n ≢ log_name base
fresh_is_not_current base files n (free, (k, e, d)) h =
    d (ap (λ (x : FileName). x.kind) (sym e ∙ h))

pub start-IsAccounted :
    (o : Outside) (now : ℤ) (config : Config) (files : Files)
    → IsAccounted (start_logging o now config files)
unfolding start_logging
start-IsAccounted o now config files =
    if_elim IsAccounted opened.1 opened.0 (remove_old_logs opened.0) (λ h. v)
      (λ h.
        same-IsAccounted opened.0 (remove_old_logs opened.0) (deletion_keeps_current opened.0) v)
  where
    opened : Outcome
    opened = open_log_file o (o.date_of now) (record {
      config = config;
      files = files;
      current_date_ts = pos 0;
      current_file_size = 0;
      is_open = false;
      to_compress = [];
    })

    v : IsAccounted opened.0
    v = open-IsAccounted o (o.date_of now) _
