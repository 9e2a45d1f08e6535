-- ===== src/UniqueFile.antt =====
-- loggers/UniqueFileLogger.hpp: one file for each message. The state has the regular files of the
-- directory by their names, what is known of each thread, and the tasks of an asynchronous logger,
-- first the oldest. Each critical section is a step: a call of log, a task that the executor runs,
-- the part of clear_logs after its wait(). What the executor does with a new task, whether a file
-- can be opened, the random numbers and the time are given with a step; files can be removed. The
-- date library is a parameter, with `ts` the time of a date's text; the order of a listing is not
-- modelled.
pub mod Spelling
pub mod Names
pub mod Saved
pub mod Counts
pub mod Pending
mod Tests
use log_it_cpp.Base.{
  ℕ, zero, suc, ◌+◌, ◌-◌, ◌*◌, ◌%◌, Bool, true, false, not, ◌&&◌, ◌||◌, Option, none, some, List,
  [], ◌∷◌, ◌++◌, ltb, leb, ◌==◌, if◌then◌else◌, ℕ_discrete, take, drop, length,
}
use log_it_cpp.Base.Ints.{ℤ, pos, negsuc, ◌+ℤ◌, ◌-ℤ◌, ltb_ℤ}
use log_it_cpp.Base.Decimal.{show_nat, fill_left, is_digit}
use log_it_cpp.Base.Store.{Eq, find, put, retain}
use log_it_cpp.Record.{Bytes}
use log_it_cpp.Context.{text_eq}
use log_it_cpp.Files.{date_eq}
use log_it_cpp.Otlp.Json.{bytes_eq}
use log_it_cpp.Format.Fields.{DateTime, two_digits}
use log_it_cpp.UniqueFile.Spelling.{generate_fixed_length_hash, unique_name, is_valid_log_filename}

instance unfoldable pub thread_eq : Eq ℕ
thread_eq = record { dec = ℕ_discrete }

-- `is_async` is the field async; the queue's limits belong to the executor.
pub record Config : Type 0 where
  pub directory : Bytes
  pub is_async : Bool
  pub auto_delete_days : ℕ
  pub hash_length : ℕ

pub record ThreadLogInfo : Type 0 where
  pub pending_logs : ℤ
  pub last_file_path : Bytes
  pub last_file_name : Bytes

-- What the task of an asynchronous call has captured.
pub record Task : Type 0 where
  pub thread : ℕ
  pub text : Bytes
  pub time : ℤ

pub record UniqueFileLogger : Type 0 where
  pub config : Config
  pub files : List (Bytes × Bytes)
  pub thread_log_info : List (ℕ × ThreadLogInfo)
  pub last_log_ts : ℤ
  pub queue : List Task
  pub is_shutdown : Bool

-- `draws` are the numbers of the distribution, from 0 to 61; `now` is the time in seconds.
pub record Outside : Type 0 where
  pub draws : List ℕ
  pub opens : Bool
  pub now : ℤ

-- What add_task does with a task: the queue may be full.
pub data Admission : Type 0 where
  added dropped_newest dropped_oldest : Admission

abbrev pub path_of : Config → Bytes → Bytes
path_of config name = config.directory ++ b'/' ∷ name

abbrev pub not_available : Bytes
not_available =
    b'N' ∷ b'o' ∷ b't' ∷ b' ' ∷ b'a' ∷ b'v' ∷ b'a' ∷ b'i' ∷ b'l' ∷ b'a' ∷ b'b' ∷ b'l' ∷ b'e' ∷ []

-- The names of the last file, or of none when its write raised an exception.
abbrev pub note_file : Config → Option Bytes → ThreadLogInfo → ThreadLogInfo
note_file config none i = record i {
  last_file_path = not_available;
  last_file_name = not_available;
}
note_file config (some name) i = record i {
  last_file_path = path_of config name;
  last_file_name = name;
}

abbrev pub no_info : ThreadLogInfo
no_info = record { pending_logs = pos 0; last_file_path = []; last_file_name = [] }

-- `m_thread_log_info[thread]`.
abbrev pub info_of : Option ThreadLogInfo → ThreadLogInfo
info_of none = no_info
info_of (some i) = i

pub new_unique_logger : Config → List (Bytes × Bytes) → UniqueFileLogger
new_unique_logger config files = record {
  config = config;
  files = files;
  thread_log_info = [];
  last_log_ts = pos 0;
  queue = [];
  is_shutdown = false;
}

-- `m_executor->add_task`.
abbrev pub add_to : Admission → Task → List Task → List Task
add_to added task queue = queue ++ task ∷ []
add_to dropped_newest task queue = queue
add_to dropped_oldest task [] = task ∷ []
add_to dropped_oldest task (oldest ∷ queue) = queue ++ task ∷ []

abbrev pub seconds_per_day : ℕ
seconds_per_day = 86400

module _ (date_of : ℤ → DateTime) (ts : Bytes → ℤ) where
  pub create_unique_name : Config → Outside → ℤ → Bytes
  create_unique_name config o timestamp_ms =
      unique_name (date_of timestamp_ms) (generate_fixed_length_hash config.hash_length o.draws)

  -- The file that was written, which is emptied before when it is there, and `none` for an exception.
  pub write_log : Outside → Bytes → ℤ → UniqueFileLogger → Option Bytes × UniqueFileLogger
  write_log o message timestamp_ms s =
      let name = create_unique_name s.config o timestamp_ms in
      if o.opens then (some name, record s { files = put name message s.files }) else (none, s)

  pub is_expired : ℤ → Bytes → Bool
  is_expired threshold name = is_valid_log_filename name && ltb_ℤ (ts (take 10 name)) threshold

  pub remove_old_logs : Outside → UniqueFileLogger → UniqueFileLogger
  remove_old_logs o s =
      let threshold = o.now -ℤ pos (s.config.auto_delete_days * seconds_per_day) in
      record s { files = retain (λ name. not (is_expired threshold name)) s.files }

  -- After a write in the calling thread: the first one of a thread returns early.
  abbrev pub note_sync :
      Outside → ℕ → Option Bytes × UniqueFileLogger → Option ThreadLogInfo → UniqueFileLogger
  note_sync o thread (file, s) none = record s {
    thread_log_info = put thread (note_file s.config file no_info) s.thread_log_info;
  }
  note_sync o thread (file, s) (some i) =
      remove_old_logs o
        (record s { thread_log_info = put thread (note_file s.config file i) s.thread_log_info })

  abbrev pub add_pending : ℤ → ThreadLogInfo → ThreadLogInfo
  add_pending n i = record i { pending_logs = i.pending_logs +ℤ n }

  pub log_sync : Outside → Task → UniqueFileLogger → UniqueFileLogger
  log_sync o task s =
      note_sync o task.thread (write_log o task.text task.time s)
        (find task.thread s.thread_log_info)

  pub log_async : Admission → Task → UniqueFileLogger → UniqueFileLogger
  log_async admission task s = record s {
    thread_log_info =
        put task.thread (add_pending (pos 1) (info_of (find task.thread s.thread_log_info)))
          s.thread_log_info;
    queue = add_to admission task s.queue;
  }

  pub log : Admission → Outside → Task → UniqueFileLogger → UniqueFileLogger
  log admission o task s =
      let u = record s { last_log_ts = task.time } in
      if s.is_shutdown
      then s
      else if s.config.is_async
      then log_async admission task u
      else log_sync o task u

  -- The end of a task, in which -1 is added to the pending calls.
  abbrev pub note_async :
      Outside → ℕ → Option Bytes × UniqueFileLogger → Option ThreadLogInfo → UniqueFileLogger
  note_async o thread (file, s) none = s
  note_async o thread (file, s) (some i) = remove_old_logs o (record s {
    thread_log_info =
        put thread (add_pending (negsuc 0) (note_file s.config file i)) s.thread_log_info;
  })

  pub run_task : Outside → Task → UniqueFileLogger → UniqueFileLogger
  run_task o task s =
      note_async o task.thread (write_log o task.text task.time s)
        (find task.thread s.thread_log_info)

  -- The executor takes the oldest task and runs it.
  pub run_next : Outside → UniqueFileLogger → UniqueFileLogger
  run_next o s = elim s.queue [
    | [] ↦ s
    | task ∷ queue ↦ run_task o task (record s { queue = queue })
  ]

-- clear_logs, after its wait(): the files that are listed are removed.
pub clear_logs : UniqueFileLogger → UniqueFileLogger
clear_logs s = if s.is_shutdown then s else record s {
  files = retain (λ name. not (is_valid_log_filename name)) s.files;
  thread_log_info = [];
  last_log_ts = pos 0;
}

pub cleared_records : UniqueFileLogger → ℕ
cleared_records s =
    if s.is_shutdown
    then 0
    else length s.files - length (retain (λ name. not (is_valid_log_filename name)) s.files)

-- After it the executor runs what is queued.
pub shutdown : UniqueFileLogger → UniqueFileLogger
shutdown s = record s { is_shutdown = true }

-- The predicate of the wait in get_last_log_file_name and get_last_log_file_path.
abbrev pub is_done : Option ThreadLogInfo → Bool
is_done none = true
is_done (some i) = date_eq i.pending_logs (pos 0)

-- `none` while the call waits.
pub get_last_log_file_name : ℕ → UniqueFileLogger → Option Bytes
get_last_log_file_name thread s =
    let i = find thread s.thread_log_info in
    if is_done i then some (info_of i).last_file_name else none

pub get_last_log_file_path : ℕ → UniqueFileLogger → Option Bytes
get_last_log_file_path thread s =
    let i = find thread s.thread_log_info in
    if is_done i then some (info_of i).last_file_path else none
