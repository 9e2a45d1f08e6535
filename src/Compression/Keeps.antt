-- ===== src/Compression/Keeps.antt =====
-- CompressionWorker.hpp: what compress_file leaves alone.
use log_it_cpp.Base.{◌≡◌, ◌≢◌, refl, ap, ◌∙◌, Bool, Option, none, some}
use log_it_cpp.Base.Store.{find, put, remove}
use log_it_cpp.Record.{Bytes}
use log_it_cpp.Files.{Packing, unpacked, gz, FileName, Files, name_eq}
use log_it_cpp.Files.Laws.{find-put_other, find-remove_other}
use log_it_cpp.Compression.{
  CompressType, no_compression, gzip, zstd, external_cmd, compress_file, packing_of, pack_file,
  replace_by_packed,
}

-- The external command leaves other files that are not compressed alone.
abbrev pub IsPolite : (Files → FileName → Files × Bool) → Type 0
IsPolite run_command =
    (files : Files) (src n : FileName)
    → n.packing ≡ unpacked
    → n ≢ src
    → find n (run_command files src).0 ≡ find n files

module _ (pack : CompressType → Bytes → Option Bytes)
    (run_command : Files → FileName → Files × Bool) (polite : IsPolite run_command) where
  packed_is_not :
      (src n : FileName) (p : Packing)
      → n.packing ≡ unpacked
      → p ≢ unpacked
      → record src { packing = p } ≢ n
  packed_is_not src n p h k e = k (ap (λ (x : FileName). x.packing) e ∙ h)

  pack_file_keeps :
      (type_ : CompressType) (files : Files) (src n : FileName) (o : Option Bytes)
      → packing_of type_ ≢ unpacked
      → n.packing ≡ unpacked
      → n ≢ src
      → find n (pack_file pack run_command type_ files src o).0 ≡ find n files
  unfolding pack_file replace_by_packed
  pack_file_keeps type_ files src n none k h d = refl
  pack_file_keeps type_ files src n (some content) k h d = go (pack type_ content)
    where
      go :
          (r : Option Bytes)
          → find n (replace_by_packed pack run_command files src (packing_of type_) r).0
            ≡ find n files
      go none = refl
      go (some bytes) =
          find-remove_other src n _ d
          ∙ find-put_other (record src { packing = packing_of type_ }) n bytes files
              (packed_is_not src n (packing_of type_) h k)

  -- Compressing a file leaves the other uncompressed ones as they are.
  pub compress_file_keeps :
      (type_ : CompressType) (files : Files) (src n : FileName)
      → n.packing ≡ unpacked
      → n ≢ src
      → find n (compress_file pack run_command type_ files src).0 ≡ find n files
  unfolding compress_file
  compress_file_keeps no_compression files src n h d = refl
  compress_file_keeps external_cmd files src n h d = polite files src n h d
  compress_file_keeps gzip files src n h d =
      pack_file_keeps gzip files src n (find src files) (λ e. cc) h d
  compress_file_keeps zstd files src n h d =
      pack_file_keeps zstd files src n (find src files) (λ e. cc) h d

module _ (pack : CompressType → Bytes → Option Bytes)
    (run_command : Files → FileName → Files × Bool) where
  -- What a gzip compression that succeeds does to the files.
  pub packed-files :
      (files : Files) (r : FileName) (c z : Bytes)
      → find r files ≡ some c
      → pack gzip c ≡ some z
      → (compress_file pack run_command gzip files r).0
        ≡ remove r (put (record r { packing = gz }) z files)
  unfolding compress_file pack_file replace_by_packed
  packed-files files r c z e p =
      ap (λ o. (pack_file pack run_command gzip files r o).0) e
      ∙ ap (λ o. (replace_by_packed pack run_command files r gz o).0) p
