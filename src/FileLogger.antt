-- ===== src/FileLogger.antt =====
-- loggers/FileLogger.hpp, the native build: the writes of one logger, in the order in which it makes
-- them (under its mutex, on the caller's thread or the executor's). Names are those of Files; the
-- directory's path and its listing are not in the model. `auto_delete_days` is not negative. What
-- a call finds outside is an `Outside`: the date of a time (time_shield), the time of day for
-- rotated names, and whether opening and renaming a file succeed. A write to an open file succeeds.
pub mod Naming
pub mod Retention
pub mod Current
pub mod Sizes
pub mod Losses
pub mod Limit
pub mod Reuse
pub mod Newest
pub mod Closed
mod Tests
use log_it_cpp.Base.{
  ℕ, zero, suc, ◌+◌, ◌-◌, ◌*◌, Bool, true, false, not, ◌&&◌, ◌||◌, Option, none, some, List, [],
  ◌∷◌, ◌++◌, ltb, leb, ◌==◌, if◌then◌else◌, length, take,
}
use log_it_cpp.Base.Ints.{ℤ, pos, ◌-ℤ◌, ltb_ℤ}
use log_it_cpp.Base.Store.{Eq, ◌=?◌, find, put, retain, remove, exists?, keys}
use log_it_cpp.Record.{Bytes}
use log_it_cpp.Files.{
  Kind, current, indexed, timed, unpacked, FileName, Files, name_eq, date_eq, open_append,
  content_of, append_to, rename,
}
use log_it_cpp.Compression.{CompressType, no_compression, gzip, zstd, external_cmd, compress_file}

pub data RotationNaming : Type 0 where
  by_sequence by_timestamp by_timestamp_ms : RotationNaming

pub record Config : Type 0 where
  pub auto_delete_days : ℕ
  pub max_file_size_bytes : ℕ
  pub max_rotated_files : ℕ
  pub compress : CompressType
  pub compress_async : Bool
  pub naming : RotationNaming

-- `to_compress` is what was handed to the compression worker.
pub record FileLogger : Type 0 where
  pub config : Config
  pub files : Files
  pub current_date_ts : ℤ
  pub current_file_size : ℕ
  pub is_open : Bool
  pub to_compress : List FileName

pub record Outside : Type 0 where
  pub date_of : ℤ → ℤ
  pub time_of_day : ℕ
  pub time_of_day_ms : ℕ
  pub opens : Bool
  pub renames : Bool

-- One write: what it meets outside, the message and its time.
abbrev pub Write : Type 0
Write = Outside × Bytes × ℤ

-- A state, and whether an exception leaves the call.
abbrev pub Outcome : Type 0
Outcome = FileLogger × Bool

abbrev pub and_then : Outcome → (FileLogger → Outcome) → Outcome
and_then (s, true) k = (s, true)
and_then (s, false) k = k s

abbrev pub name_of : ℤ → Kind → FileName
name_of date kind = record { date = date; kind = kind; packing = unpacked }

-- create_file_path.
abbrev pub log_name : ℤ → FileName
log_name date = name_of date current

abbrev pub current_name : FileLogger → FileName
current_name s = log_name s.current_date_ts

pub open_log_file : Outside → ℤ → FileLogger → Outcome
open_log_file o date s =
    if o.opens
    then (
      record s {
        files = open_append s.files (log_name date);
        current_date_ts = date;
        current_file_size = length (content_of (find (log_name date) s.files));
        is_open = true;
      },
      false,
    )
    else (record s { current_date_ts = date; is_open = false }, true)

-- The loops `for (;; ++idx)` over candidates, from `idx`; at most `fuel` rounds. The index, a
-- uint32_t, does not wrap: a directory has fewer than 2^32 files.
pub first_free : ℕ → (ℕ → FileName) → Files → ℕ → ℕ
first_free zero name files idx = idx
first_free (suc fuel) name files idx =
    let rest = first_free fuel name files (idx + 1) in
    if exists? (name idx) files then rest else idx

abbrev pub index_of : Kind → ℕ
index_of current = 0
index_of (indexed i) = i
index_of (timed t i) = i

-- The greatest index in use; one round more than it is enough fuel.
pub top_index : Files → ℕ
top_index [] = 0
top_index ((n, c) ∷ files) =
    let rest = top_index files in if ltb rest (index_of n.kind) then index_of n.kind else rest

pub make_sequence_name : ℤ → Files → FileName
make_sequence_name base files =
    name_of base (indexed (first_free (top_index files) (λ i. name_of base (indexed i)) files 1))

pub make_timestamp_name : ℤ → ℕ → Files → FileName
make_timestamp_name base time files =
    if not (exists? (name_of base (timed time 0)) files)
    then name_of base (timed time 0)
    else name_of base
        (timed time (first_free (top_index files) (λ i. name_of base (timed time i)) files 1))

pub make_rotated_name : RotationNaming → Outside → ℤ → Files → FileName
make_rotated_name by_sequence o base files = make_sequence_name base files
make_rotated_name by_timestamp o base files = make_timestamp_name base o.time_of_day files
make_rotated_name by_timestamp_ms o base files = make_timestamp_name base o.time_of_day_ms files

-- `extract`: what rotated files are sorted by.
abbrev pub sort_key : Kind → ℕ × ℕ
sort_key current = (0, 0)
sort_key (indexed i) = (i, 0)
sort_key (timed t i) = (t, i)

abbrev pub earlier : FileName → FileName → Bool
earlier a b =
    let (t, i) = sort_key a.kind in
    let (u, j) = sort_key b.kind in if t == u then ltb i j else ltb t u

pub insert_sorted : FileName → List FileName → List FileName
insert_sorted a [] = a ∷ []
insert_sorted a (b ∷ bs) = if earlier b a then b ∷ insert_sorted a bs else a ∷ b ∷ bs

-- std::sort.
pub sort_files : List FileName → List FileName
sort_files [] = []
sort_files (a ∷ as') = insert_sorted a (sort_files as')

-- Every file of the date but the current one.
pub rotated_files : ℤ → List FileName → List FileName
rotated_files base [] = []
rotated_files base (n ∷ ns) =
    let rest = rotated_files base ns in
    if date_eq n.date base && not (n =? log_name base) then n ∷ rest else rest

pub remove_all : List FileName → Files → Files
remove_all [] files = files
remove_all (n ∷ ns) files = remove_all ns (remove n files)

pub enforce_rotation_retention : ℤ → ℕ → Files → Files
enforce_rotation_retention base max_files files =
    let rotated = rotated_files base (keys files) in
    if leb (length rotated) max_files
    then files
    else remove_all (take (length rotated - max_files) (sort_files rotated)) files

abbrev pub seconds_per_day : ℕ
seconds_per_day = 86400

pub remove_old_logs : FileLogger → FileLogger
remove_old_logs s =
    let threshold = s.current_date_ts -ℤ pos (seconds_per_day * s.config.auto_delete_days) in
    record s { files = retain (λ n. not (ltb_ℤ n.date threshold)) s.files }

-- `m_file << message << '\n'`. A write to an open stream succeeds.
pub append_message : Bytes → FileLogger → FileLogger
append_message message s =
    if s.is_open
    then record s {
      files = append_to s.files (current_name s) (message ++ 10 ∷ []);
      current_file_size = s.current_file_size + (length message + 1);
    }
    else s

pub reopen_for : Outside → ℤ → FileLogger → Outcome
reopen_for o date s = if date_eq date s.current_date_ts then (s, false) else open_log_file o date s

pub retain_rotated : FileLogger → FileLogger
retain_rotated s =
    if ltb 0 s.config.max_rotated_files
    then record s {
      files = enforce_rotation_retention s.current_date_ts s.config.max_rotated_files s.files;
    }
    else s

module _ (pack : CompressType → Bytes → Option Bytes)
    (run_command : Files → FileName → Files × Bool) where
  -- Hand the rotated file over, or compress it here.
  pub pack_rotated : CompressType → FileName → FileLogger → FileLogger
  pack_rotated type_ rotated s =
      if s.config.compress_async
      then record s { to_compress = s.to_compress ++ rotated ∷ [] }
      else record s { files = (compress_file pack run_command type_ s.files rotated).0 }

  pub compress_by : CompressType → FileName → FileLogger → FileLogger
  compress_by no_compression rotated s = s
  compress_by type_ rotated s = pack_rotated type_ rotated s

  pub compress_rotated : FileName → FileLogger → FileLogger
  compress_rotated rotated s = compress_by s.config.compress rotated s

  -- After the rename: a new current file, compression and retention.
  pub after_rename : Outside → FileName → FileLogger → Outcome
  after_rename o rotated s =
      and_then (open_log_file o s.current_date_ts s)
        λ u. (retain_rotated (compress_rotated rotated (record u { current_file_size = 0 })), false)

  pub renamed_to : Outside → FileName → FileLogger → Option Files → Outcome
  renamed_to o rotated s none = (s, true)
  renamed_to o rotated s (some files) = after_rename o rotated (record s { files = files })

  pub rotate_current_file : Outside → FileLogger → Outcome
  rotate_current_file o s =
      let rotated = make_rotated_name s.config.naming o s.current_date_ts s.files in
      let closed = record s { is_open = false } in
      if o.renames
      then renamed_to o rotated closed (rename s.files (current_name s) rotated)
      else (closed, true)

  pub rotate_for : Outside → Bytes → FileLogger → Outcome
  rotate_for o message s =
      if ltb 0 s.config.max_file_size_bytes
        && ltb s.config.max_file_size_bytes (s.current_file_size + (length message + 1))
      then rotate_current_file o s
      else (s, false)

  pub write_log : Outside → Bytes → ℤ → FileLogger → Outcome
  write_log o message timestamp_ms s = and_then (reopen_for o (o.date_of timestamp_ms) s) λ u.
      and_then (rotate_for o message u) λ v. (remove_old_logs (append_message message v), false)

  -- The writes of a logger one after another; `log` reports an exception and goes on.
  pub write_all : List Write → FileLogger → FileLogger
  write_all [] s = s
  write_all ((o, message, t) ∷ ws) s = write_all ws (write_log o message t s).0

-- start_logging: today's file, and the old ones removed; an exception is caught.
pub start_logging : Outside → ℤ → Config → Files → FileLogger
start_logging o now config files =
    let opened = open_log_file o (o.date_of now) (record {
      config = config;
      files = files;
      current_date_ts = pos 0;
      current_file_size = 0;
      is_open = false;
      to_compress = [];
    }) in
    if opened.1 then opened.0 else remove_old_logs opened.0
