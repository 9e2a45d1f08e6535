-- ===== src/Compression/Tests.antt =====
-- CompressionWorker.hpp: one file, compressed by the thread.
use log_it_cpp.Base.{ℕ, ◌≡◌, refl, Bool, true, Option, some, List, [], ◌∷◌}
use log_it_cpp.Base.Ints.{pos}
use log_it_cpp.Base.Store.{remove}
use log_it_cpp.Record.{Bytes}
use log_it_cpp.Files.{indexed, unpacked, FileName, Files, name_eq}
use log_it_cpp.Compression.{CompressType, gzip}
use log_it_cpp.Compression.Worker.{
  Call, enqueues, works, new_worker, enqueue, wait_done, take_next, finish, work, step, run,
  compress_all,
}
use log_it_cpp.Compression.Worker.Drain.{work_times, left_steps, drained-compressed}

abbrev marked : CompressType → Bytes → Option Bytes
marked type_ content = some (9 ∷ content)

abbrev deletes : Files → FileName → Files × Bool
deletes files n = (remove n files, true)

abbrev number : ℕ → FileName
number i = record { date = pos 0; kind = indexed i; packing = unpacked }

abbrev calls : List Call
calls = enqueues (number 1) ∷ works ∷ enqueues (number 2) ∷ []

abbrev two_files : Files
two_files = (number 1, 65 ∷ []) ∷ (number 2, 66 ∷ []) ∷ []

drained-compressed_example :
    let files = two_files in
    let w = run marked deletes (new_worker gzip files) calls in
    let u = run marked deletes w (work_times (left_steps w.busy w.queue)) in
    (wait_done u ≡ true) × (u.files ≡ compress_all marked deletes gzip files w.enqueued)
unfolding run step work finish take_next enqueue new_worker
drained-compressed_example = drained-compressed marked deletes gzip two_files calls refl
