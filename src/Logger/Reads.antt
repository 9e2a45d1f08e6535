-- ===== src/Logger/Reads.antt =====
-- Logger.hpp: the calls that read from one backend.
use log_it_cpp.Base.{false, none, some, List, [], map, if◌then◌else◌}
use log_it_cpp.Base.Ints.{ℤ, pos}
use log_it_cpp.Record.{Bytes, LogLevel, BufferedLogEntry}
use log_it_cpp.Logger.{LogFileInfo, LogFileReadResult, ILogger, LoggerParam, Logger, strategy_at}

-- A read of one backend, with its result when there is none (shut down, or no such index).
abbrev pub read_one : {B F R : Type 0} → R → (B → R) → ℤ → Logger B F → R
read_one default read index s =
    if s.is_shutdown
    then default
    else elim (strategy_at s.loggers index) [ none ↦ default | some st ↦ read st.logger ]

abbrev pub not_read : Bytes → LogFileReadResult
not_read path = record {
  file = record {
    path = path;
    name = [];
    day_start_ms = pos 0;
    is_current = false;
    is_compressed = false;
  };
  content = [];
  is_ok = false;
}

module _ {B F : Type 0} (api : ILogger B) where
  pub get_log_level : ℤ → Logger B F → LogLevel
  get_log_level index s = read_one LogLevel.trace api.level_of index s

  pub get_buffered_strings : ℤ → Logger B F → List Bytes
  get_buffered_strings index s = read_one [] api.strings_of index s

  pub get_buffered_entries : ℤ → Logger B F → List BufferedLogEntry
  get_buffered_entries index s = read_one [] api.entries_of index s

  pub get_string_param : ℤ → LoggerParam → Logger B F → Bytes
  get_string_param index param s = read_one [] (λ b. api.string_param_of b param) index s

  pub get_int_param : ℤ → LoggerParam → Logger B F → ℤ
  get_int_param index param s = read_one (pos 0) (λ b. api.int_param_of b param) index s

  pub list_log_files : ℤ → Logger B F → List LogFileInfo
  list_log_files index s = read_one [] api.files_of index s

  pub read_log_file : ℤ → Bytes → Logger B F → LogFileReadResult
  read_log_file index path s = read_one (not_read path) (λ b. api.read_file b path) index s

  pub read_log_files : ℤ → List Bytes → Logger B F → List LogFileReadResult
  read_log_files index paths s = read_one (map not_read paths) (λ b. api.read_files b paths) index s
