-- ===== src/UniqueFile/Saved.antt =====
-- UniqueFileLogger.hpp: the files after a call of a synchronous logger.
use log_it_cpp.Base.{◌*◌, Option, some, if◌then◌else◌}
use log_it_cpp.Base.Ints.{ℤ, pos, ◌-ℤ◌}
use log_it_cpp.Base.Store.{◌=?◌, find}
use log_it_cpp.Record.{Bytes}
use log_it_cpp.Otlp.Json.{bytes_eq}
use log_it_cpp.Format.Fields.{DateTime}
use log_it_cpp.UniqueFile.{
  thread_eq, Task, UniqueFileLogger, Outside, seconds_per_day, create_unique_name,
}

module _ (date_of : ℤ → DateTime) (ts : Bytes → ℤ) where
  -- What is in a file after a message is written to a file of its own, before old files are removed.
  abbrev pub written : Outside → Task → UniqueFileLogger → Bytes → Option Bytes
  written o task s j =
      if create_unique_name date_of ts s.config o task.time =? j
      then some task.text
      else find j s.files

  abbrev pub threshold_of : Outside → UniqueFileLogger → ℤ
  threshold_of o s = o.now -ℤ pos (s.config.auto_delete_days * seconds_per_day)
