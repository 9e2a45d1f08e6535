-- ===== src/FileLogger/Tests.antt =====
-- FileLogger.hpp on small inputs: rotations, retention and compression in a directory of one day.
use log_it_cpp.Base.{
  ℕ, ℕ_discrete, ◌≡◌, ◌≢◌, ◌≤◌, refl, Bool, true, false, Option, some, none, [], ◌∷◌, length, arith,
}
use log_it_cpp.Base.Ints.{ℤ, pos}
use log_it_cpp.Base.Store.{find, put, remove, retain}
use log_it_cpp.Record.{Bytes}
use log_it_cpp.Files.{
  indexed, timed, gz, FileName, Files, name_eq, date_eq, rename, move, create_unless, open_append,
  append_to,
}
use log_it_cpp.Files.Laws.{find-remove_other}
use log_it_cpp.Compression.{CompressType, no_compression, gzip}
use log_it_cpp.Compression.Keeps.{IsPolite}
use log_it_cpp.FileLogger.{
  RotationNaming, by_sequence, by_timestamp, Config, FileLogger, Outside, name_of, log_name,
  current_name, make_rotated_name, make_sequence_name, first_free, top_index, renamed_to,
  after_rename, compress_rotated, compress_by, retain_rotated, rotated_files, rotate_current_file,
  reopen_for, open_log_file, rotate_for, append_message, remove_old_logs, write_log, write_all,
  start_logging,
}
use log_it_cpp.FileLogger.Naming.{IsFresh, make_rotated_name-IsFresh}
use log_it_cpp.FileLogger.Current.{IsAccounted}
use log_it_cpp.FileLogger.Sizes.{write_all-start-IsAccounted}
use log_it_cpp.FileLogger.Losses.{rotate_keeps_contents}
use log_it_cpp.FileLogger.Limit.{length-write_log}
use log_it_cpp.FileLogger.Reuse.{rotate-overwrites}
use log_it_cpp.FileLogger.Newest.{rotate-drops_newest}
use log_it_cpp.FileLogger.Closed.{write_all-after_failure}

abbrev marked : CompressType → Bytes → Option Bytes
marked type_ content = some (9 ∷ content)

abbrev deletes : Files → FileName → Files × Bool
deletes files n = (remove n files, true)

deletes-IsPolite : IsPolite deletes
deletes-IsPolite files src n p d = find-remove_other src n files d

abbrev a_day : Outside
a_day = record {
  date_of = λ t. pos 0;
  time_of_day = 7;
  time_of_day_ms = 7000;
  opens = true;
  renames = true;
}

abbrev settings : RotationNaming → CompressType → ℕ → ℕ → Config
settings naming compress max max_rotated = record {
  auto_delete_days = 30;
  max_file_size_bytes = max;
  max_rotated_files = max_rotated;
  compress = compress;
  compress_async = false;
  naming = naming;
}

-- A logger of day 0 whose current file holds two bytes.
abbrev logger : Config → Files → FileLogger
logger config others = record {
  config = config;
  files = (log_name (pos 0), 65 ∷ 10 ∷ []) ∷ others;
  current_date_ts = pos 0;
  current_file_size = 2;
  is_open = true;
  to_compress = [];
}

abbrev number : ℕ → FileName
number i = name_of (pos 0) (indexed i)

make_rotated_name-IsFresh_example :
    IsFresh
      (pos 0)
      ((name_of (pos 0) (timed 7 0), []) ∷ [])
      (make_rotated_name by_timestamp a_day (pos 0) ((name_of (pos 0) (timed 7 0), []) ∷ []))
make_rotated_name-IsFresh_example =
    make_rotated_name-IsFresh by_timestamp a_day (pos 0) ((name_of (pos 0) (timed 7 0), []) ∷ [])

write_all-start-IsAccounted_example : IsAccounted (
    write_all marked deletes
      ((a_day, 66 ∷ [], pos 5) ∷ (a_day, 67 ∷ [], pos 6) ∷ [])
      (start_logging a_day (pos 1) (settings by_sequence gzip 3 2) []))
write_all-start-IsAccounted_example =
    write_all-start-IsAccounted marked deletes deletes-IsPolite a_day (pos 1)
      (settings by_sequence gzip 3 2) [] ((a_day, 66 ∷ [], pos 5) ∷ (a_day, 67 ∷ [], pos 6) ∷ [])

rotate_keeps_contents_example :
    let s = logger (settings by_sequence no_compression 3 0) [] in
    let u = (rotate_current_file marked deletes a_day s).0 in
    (find (make_rotated_name by_sequence a_day (pos 0) s.files) s.files ≡ none)
    × (find (make_rotated_name by_sequence a_day (pos 0) s.files) u.files ≡ some (65 ∷ 10 ∷ []))
    × (find (log_name (pos 0)) u.files ≡ some [])
    × ((m : FileName)
        → m ≢ make_rotated_name by_sequence a_day (pos 0) s.files
        → m ≢ log_name (pos 0)
        → find m u.files ≡ find m s.files)
unfolding find name_eq ℕ_discrete
rotate_keeps_contents_example =
    rotate_keeps_contents marked deletes a_day (logger (settings by_sequence no_compression 3 0) [])
      (65 ∷ 10 ∷ []) refl refl refl refl refl

length-write_log_example :
    let u =
      (write_log marked deletes a_day
        (66 ∷ [])
        (pos 5)
        (logger (settings by_sequence no_compression 3 0) [])).0 in
    (c : Bytes) × (find (current_name u) u.files ≡ some c) × (length c ≤ 3)
unfolding write_log find name_eq ℕ_discrete reopen_for rotate_for rotate_current_file renamed_to
    rename move after_rename open_log_file open_append create_unless make_rotated_name
    make_sequence_name first_free top_index put remove retain compress_rotated compress_by
    retain_rotated append_message remove_old_logs append_to
length-write_log_example =
    length-write_log marked deletes deletes-IsPolite a_day (66 ∷ []) (pos 5)
      (logger (settings by_sequence no_compression 3 0) []) (λ e. (65 ∷ 10 ∷ [], refl, refl))
      (omega arith) (omega arith) refl refl

rotate-overwrites_example :
    let s =
      logger
        (settings by_sequence gzip 3 0)
        ((record (number 1) { packing = gz }, 9 ∷ 64 ∷ 10 ∷ []) ∷ []) in
    let u = (rotate_current_file marked deletes a_day s).0 in
    (find (number 1) u.files ≡ none)
    × (find (record (number 1) { packing = gz }) u.files ≡ some (9 ∷ 65 ∷ 10 ∷ []))
    × (find (log_name (pos 0)) u.files ≡ some [])
unfolding find name_eq ℕ_discrete
rotate-overwrites_example =
    rotate-overwrites marked deletes a_day
      (logger (settings by_sequence gzip 3 0)
        ((record (number 1) { packing = gz }, 9 ∷ 64 ∷ 10 ∷ []) ∷ []))
      (65 ∷ 10 ∷ []) (9 ∷ 65 ∷ 10 ∷ []) refl refl refl refl refl refl refl refl refl

rotate-drops_newest_example :
    let s =
      logger
        (settings by_sequence no_compression 3 2)
        ((number 2, 50 ∷ []) ∷ (number 3, 51 ∷ []) ∷ []) in
    let u = (rotate_current_file marked deletes a_day s).0 in
    (find (number 1) u.files ≡ none)
    × (find (log_name (pos 0)) u.files ≡ some [])
    × ((m : FileName) → m ≢ number 1 → m ≢ log_name (pos 0) → find m u.files ≡ find m s.files)
unfolding find name_eq ℕ_discrete rotated_files
rotate-drops_newest_example =
    rotate-drops_newest marked deletes a_day
      (logger (settings by_sequence no_compression 3 2)
        ((number 2, 50 ∷ []) ∷ (number 3, 51 ∷ []) ∷ []))
      (65 ∷ 10 ∷ []) refl refl refl refl refl refl refl (omega arith) (refl, (refl, tt))

write_all-after_failure_example :
    let bad = record a_day { opens = false } in
    let s = logger (settings by_sequence no_compression 0 0) [] in
    let v =
      write_all marked deletes ((a_day, 66 ∷ [], pos 5) ∷ []) (open_log_file bad (pos 0) s).0 in
    ((open_log_file bad (pos 0) s).1 ≡ true)
    × (find (log_name (pos 0)) v.files ≡ find (log_name (pos 0)) s.files)
    × ((o' : Outside) (message : Bytes) (t : ℤ)
        → date_eq (o'.date_of t) (pos 0) ≡ true
        → (write_log marked deletes o' message t v).1 ≡ false)
write_all-after_failure_example =
    write_all-after_failure marked deletes (record a_day { opens = false }) (pos 0)
      (logger (settings by_sequence no_compression 0 0) []) ((a_day, 66 ∷ [], pos 5) ∷ []) refl refl
      (refl, tt)
