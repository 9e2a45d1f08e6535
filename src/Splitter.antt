-- ===== src/Splitter.antt =====
-- loggers/otlp/OtlpPayloadSplitter.hpp: a batch cut into JSON payloads of a bounded size. How a
-- batch is written as JSON (build_otlp_logs_json_payload, in Otlp.Json) is
-- the parameter `build`, with the format inside it.
pub mod Chunks
mod Tests
use log_it_cpp.Base.{ℕ, Bool, true, false, List, [], ◌∷◌, ◌++◌, leb, ◌==◌, if◌then◌else◌, length}
use log_it_cpp.Record.{Bytes}

abbrev pub is_empty {ℓ} : {A : Type ℓ} → List A → Bool
is_empty [] = true
is_empty (x ∷ xs) = false

module _ {Item : Type 0} (build : List Item → Bytes) (max_payload_bytes : ℕ) where
  -- `current_payload` and `chunks` after one item.
  pub split_one : List Item × List Bytes → Item → List Item × List Bytes
  split_one s item =
      if leb (length (build (s.0 ++ item ∷ []))) max_payload_bytes
      then (s.0 ++ item ∷ [], s.1)
      else if is_empty s.0
      then (s.0, s.1 ++ build (s.0 ++ item ∷ []) ∷ [])
      else (item ∷ [], s.1 ++ build s.0 ∷ [])

  pub split_loop : List Item × List Bytes → List Item → List Item × List Bytes
  split_loop s [] = s
  split_loop s (item ∷ batch) = split_loop (split_one s item) batch

  -- The last chunk.
  pub close : List Item × List Bytes → List Bytes
  close s = if is_empty s.0 then s.1 else s.1 ++ build s.0 ∷ []

  pub build_chunks : List Item → List Bytes
  build_chunks batch =
      if max_payload_bytes == 0
      then build batch ∷ []
      else if is_empty batch
      then []
      else close (split_loop ([], []) batch)
