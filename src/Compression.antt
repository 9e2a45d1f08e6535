-- ===== src/Compression.antt =====
-- detail/CompressionWorker.hpp. zlib, zstd and the external command are parameters: `pack` gives
-- the compressed bytes, or none where the code would return false (also when the library is not
-- built in), and `run_command` is what the external command does to the files and whether it
-- succeeds. A name has one suffix: of a file that is packed already, which FileLogger never
-- enqueues, the code would make a `.gz.gz`, which the model has no name for. The temporary file of
-- compress_file is created and removed or renamed within it.
pub mod Worker
pub mod Keeps
mod Tests
use log_it_cpp.Base.{
  ℕ, Bool, true, false, not, ◌&&◌, Option, none, some, List, [], ◌∷◌, ◌++◌, if◌then◌else◌,
}
use log_it_cpp.Base.Store.{find, put, remove}
use log_it_cpp.Record.{Bytes}
use log_it_cpp.Files.{FileName, Files, Packing, gz, zst, name_eq}

pub data CompressType : Type 0 where
  no_compression gzip zstd external_cmd : CompressType

-- The suffix that compress_file adds.
abbrev pub packing_of : CompressType → Packing
packing_of gzip = gz
packing_of other = zst

module _ (pack : CompressType → Bytes → Option Bytes)
    (run_command : Files → FileName → Files × Bool) where
  pub replace_by_packed : Files → FileName → Packing → Option Bytes → Files × Bool
  replace_by_packed files src packing none = (files, false)
  replace_by_packed files src packing (some bytes) =
      (remove src (put (record src { packing = packing }) bytes files), true)

  pub pack_file : CompressType → Files → FileName → Option Bytes → Files × Bool
  pack_file type_ files src none = (files, false)
  pack_file type_ files src (some content) =
      replace_by_packed files src (packing_of type_) (pack type_ content)

  pub compress_file : CompressType → Files → FileName → Files × Bool
  compress_file no_compression files src = (files, true)
  compress_file external_cmd files src = run_command files src
  compress_file gzip files src = pack_file gzip files src (find src files)
  compress_file zstd files src = pack_file zstd files src (find src files)
