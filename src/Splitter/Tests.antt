-- ===== src/Splitter/Tests.antt =====
-- Concrete batches of numbers, each payload being the numbers themselves.
use log_it_cpp.Base.{ℕ, ◌≡◌, refl, List, [], ◌∷◌, arith}
use log_it_cpp.Record.{Bytes}
use log_it_cpp.Splitter.{build_chunks, split_loop, split_one, close}
use log_it_cpp.Splitter.Chunks.{Partition, build_chunks-Partition}

abbrev payload : List ℕ → Bytes
payload items = items

build_chunks_test : build_chunks payload 2 (1 ∷ 2 ∷ 3 ∷ []) ≡ (1 ∷ 2 ∷ []) ∷ (3 ∷ []) ∷ []
unfolding build_chunks split_loop split_one close
build_chunks_test = refl

build_chunks-Partition_example :
    Partition payload 2 (1 ∷ 2 ∷ 3 ∷ []) (build_chunks payload 2 (1 ∷ 2 ∷ 3 ∷ []))
build_chunks-Partition_example = build_chunks-Partition payload 2 (1 ∷ 2 ∷ 3 ∷ []) (omega arith)
