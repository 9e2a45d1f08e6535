-- ===== src/Files.antt =====
-- The log files of one directory, as FileLogger.hpp names them, and what the code does with files.
-- A name is taken apart: the date, what tells rotated files of one date apart, and the suffix of a
-- compressed file. A date is its start in seconds. `timed t 0` is a name with the time t and no
-- index. Files that no logger made are not in the model.
pub mod Laws
use mathlib.Core.Bool.{Bool, true, false, not, ◌&&◌}
use log_it_cpp.Base.{ℕ, ℕ_discrete, Option, none, some, List, ◌++◌, []}
use log_it_cpp.Base.Ints.{ℤ, ltb_ℤ}
use log_it_cpp.Base.Store.{Eq, find, put, remove}
use log_it_cpp.Record.{Bytes}

pub data Kind : Type 0 where
  current : Kind
  indexed : ℕ → Kind
  timed : ℕ → ℕ → Kind

pub data Packing : Type 0 where
  unpacked gz zst : Packing

pub record FileName : Type 0 where
  pub date : ℤ
  pub kind : Kind
  pub packing : Packing

Kind-discrete : Discrete Kind
Kind-discrete = hlevel ℕ_discrete

Packing-discrete : Discrete Packing
Packing-discrete = hlevel

ℤ-discrete : Discrete ℤ
ℤ-discrete = hlevel ℕ_discrete

FileName-discrete : Discrete FileName
FileName-discrete = hlevel (ℤ-discrete, Kind-discrete, Packing-discrete)

instance unfoldable pub name_eq : Eq FileName
unfolding FileName-discrete Kind-discrete Packing-discrete ℤ-discrete
name_eq = record { dec = FileName-discrete }

-- Equality of `int64_t` dates.
abbrev pub date_eq : ℤ → ℤ → Bool
date_eq a b = not (ltb_ℤ a b) && not (ltb_ℤ b a)

abbrev pub Files : Type 0
Files = List (FileName × Bytes)

-- A std::ofstream opened with `app` creates a file that is not there.
unfoldable pub create_unless : Files → FileName → Option Bytes → Files
create_unless files name none = put name [] files
create_unless files name (some old) = files

unfoldable pub open_append : Files → FileName → Files
open_append files name = create_unless files name (find name files)

-- What is in a file; nothing in one that is not there.
abbrev pub content_of : Option Bytes → Bytes
content_of none = []
content_of (some content) = content

unfoldable pub append_to : Files → FileName → Bytes → Files
append_to files name text = put name (content_of (find name files) ++ text) files

-- std::rename: an existing target is replaced; `none` when there is no such file.
unfoldable pub move : Files → FileName → FileName → Option Bytes → Option Files
move files from to none = none
move files from to (some content) = some (put to content (remove from files))

unfoldable pub rename : Files → FileName → FileName → Option Files
rename files from to = move files from to (find from files)
