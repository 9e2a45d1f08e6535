-- ===== src/Compression/Worker/Drain.antt =====
-- CompressionWorker.hpp: the thread comes to the end of the queue.
use log_it_cpp.Base.{
  ℕ, zero, suc, ◌+◌, ◌≡◌, refl, sym, ap, ap₂, subst, ◌∙◌, Bool, true, false, ◌&&◌, Option, none,
  some, List, [], ◌∷◌, ◌++◌, if◌then◌else◌, length, arith,
}
use log_it_cpp.Record.{Bytes}
use log_it_cpp.Files.{FileName, Files}
use log_it_cpp.Compression.{CompressType, compress_file}
use log_it_cpp.Compression.Worker.{
  CompressionWorker, Call, works, new_worker, wait_done, no_more, take_next, finish, work, step,
  run, held, compress_all, wait_done-compressed,
}

-- Steps of the thread alone.
abbrev pub work_times : ℕ → List Call
work_times zero = []
work_times (suc k) = works ∷ work_times k

-- What is left: two steps for each file in the queue, one for the file being compressed.
abbrev pub left_steps : Option FileName → List FileName → ℕ
left_steps o q = length (held o) + (length q + length q)

module _ (pack : CompressType → Bytes → Option Bytes)
    (run_command : Files → FileName → Files × Bool) where
  work-idle :
      (w : CompressionWorker) (x : FileName) (q : List FileName)
      → w.running ≡ true
      → w.busy ≡ none
      → w.queue ≡ x ∷ q
      → work pack run_command w ≡ record w { queue = q; busy = some x }
  unfolding work finish take_next
  work-idle w x q r b e =
      ap (λ c. if c then finish pack run_command w w.busy else w) r
      ∙ ap (finish pack run_command w) b
      ∙ ap (take_next pack run_command w) e

  abbrev compressed : CompressionWorker → FileName → CompressionWorker
  compressed w x = record w {
    busy = none;
    files = (compress_file pack run_command w.type_ w.files x).0;
    processed = w.processed ++ x ∷ [];
  }

  work-busy :
      (w : CompressionWorker) (x : FileName)
      → w.running ≡ true
      → w.busy ≡ some x
      → work pack run_command w ≡ compressed w x
  unfolding work finish
  work-busy w x r b =
      ap (λ c. if c then finish pack run_command w w.busy else w) r
      ∙ ap (finish pack run_command w) b

  -- The steps that are left are enough.
  drain :
      (k : ℕ) (w : CompressionWorker) (o : Option FileName) (q : List FileName)
      → w.busy ≡ o
      → w.queue ≡ q
      → w.running ≡ true
      → left_steps o q ≡ k
      → let u = run pack run_command w (work_times k) in
        (wait_done u ≡ true) × (u.enqueued ≡ w.enqueued)
  unfolding run step wait_done
  drain zero w none [] b e r h =
      (ap₂ (λ l o. no_more l && elim o [ none ↦ true | some x ↦ false ]) e b, refl)
  drain zero w none (x ∷ q) b e r h = absurd (omega (arith, h))
  drain zero w (some x) q b e r h = absurd (omega (arith, h))
  drain (suc k) w none [] b e r h = absurd (omega (arith, h))
  drain (suc k) w none (x ∷ q) b e r h =
      subst
        (λ v.
          let u = run pack run_command v (work_times k) in
          (wait_done u ≡ true) × (u.enqueued ≡ w.enqueued))
        (sym (work-idle w x q r b e))
        (drain k (record w { queue = q; busy = some x }) (some x) q refl refl r (omega (arith, h)))
  drain (suc k) w (some x) q b e r h =
      subst
        (λ v.
          let u = run pack run_command v (work_times k) in
          (wait_done u ≡ true) × (u.enqueued ≡ w.enqueued))
        (sym (work-busy w x r b)) (drain k (compressed w x) none q refl e r (omega (arith, h)))

  run-append :
      (cs ds : List Call) (w : CompressionWorker)
      → run pack run_command w (cs ++ ds) ≡ run pack run_command (run pack run_command w cs) ds
  unfolding run
  run-append [] ds w = refl
  run-append (c ∷ cs) ds w = run-append cs ds (step pack run_command w c)

  -- From any state that calls and thread steps lead to, while the thread runs: as many further
  -- steps of the thread as are left end the wait, and then the files are as if all that were
  -- enqueued had been compressed one after another, in that order.
  pub drained-compressed :
      (type_ : CompressType) (files : Files) (cs : List Call)
      → (run pack run_command (new_worker type_ files) cs).running ≡ true
      → let w = run pack run_command (new_worker type_ files) cs in
        let u = run pack run_command w (work_times (left_steps w.busy w.queue)) in
        (wait_done u ≡ true) × (u.files ≡ compress_all pack run_command type_ files w.enqueued)
  drained-compressed type_ files cs r =
      let w = run pack run_command (new_worker type_ files) cs in
      let steps = work_times (left_steps w.busy w.queue) in
      let (d, same) = drain (left_steps w.busy w.queue) w w.busy w.queue refl refl r refl in
      let joined = run-append cs steps (new_worker type_ files) in
      (
        d,
        ap (λ (v : CompressionWorker). v.files) (sym joined)
            ∙ wait_done-compressed pack run_command type_ files (cs ++ steps)
                (ap wait_done joined ∙ d)
            ∙ ap (λ (v : CompressionWorker). compress_all pack run_command type_ files v.enqueued)
                joined
            ∙ ap (compress_all pack run_command type_ files) same,
      )
