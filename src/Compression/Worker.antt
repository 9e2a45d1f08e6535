-- ===== src/Compression/Worker.antt =====
-- detail/CompressionWorker.hpp: the queue and the thread. Each critical section is a step; `works`
-- is one section of `run`, and the file is compressed between two of them, on files that nothing
-- else changes. `enqueued` and `processed` record the history.
pub mod Drain
use log_it_cpp.Base.{
  ℕ, ◌≡◌, refl, sym, ap, ap₂, ◌∙◌, Bool, true, false, not, ◌&&◌, Option, none, some, List, [], ◌∷◌,
  ◌++◌, append_assoc, append-nil, if◌then◌else◌, if_elim,
}
use log_it_cpp.Record.{Bytes}
use log_it_cpp.Files.{FileName, Files}
use log_it_cpp.Compression.{CompressType, no_compression, gzip, zstd, external_cmd, compress_file}

pub record CompressionWorker : Type 0 where
  pub type_ : CompressType
  pub queue : List FileName
  pub busy : Option FileName
  pub stop : Bool
  pub running : Bool
  pub files : Files
  pub enqueued : List FileName
  pub processed : List FileName

abbrev pub no_more : List FileName → Bool
no_more [] = true
no_more (x ∷ xs) = false

-- The thread starts unless the type is NONE.
abbrev pub starts_thread : CompressType → Bool
starts_thread no_compression = false
starts_thread other = true

unfoldable pub new_worker : CompressType → Files → CompressionWorker
new_worker type_ files = record {
  type_ = type_;
  queue = [];
  busy = none;
  stop = false;
  running = starts_thread type_;
  files = files;
  enqueued = [];
  processed = [];
}

unfoldable pub enqueue : CompressionWorker → FileName → CompressionWorker
enqueue w path = record w { queue = w.queue ++ path ∷ []; enqueued = w.enqueued ++ path ∷ [] }

-- The condition under which `wait()` returns.
unfoldable pub wait_done : CompressionWorker → Bool
wait_done w = no_more w.queue && elim w.busy [ none ↦ true | some x ↦ false ]

-- `enqueues` calls enqueue; `stops` is the destructor before its join.
pub data Call : Type 0 where
  enqueues : FileName → Call
  works : Call
  stops : Call

abbrev pub held : Option FileName → List FileName
held none = []
held (some x) = x ∷ []

module _ (pack : CompressType → Bytes → Option Bytes)
    (run_command : Files → FileName → Files × Bool) where
  unfoldable pub take_next : CompressionWorker → List FileName → CompressionWorker
  take_next w [] = if w.stop then record w { running = false } else w
  take_next w (x ∷ q) = record w { queue = q; busy = some x }

  unfoldable pub finish : CompressionWorker → Option FileName → CompressionWorker
  finish w none = take_next w w.queue
  finish w (some x) = record w {
    busy = none;
    files = (compress_file pack run_command w.type_ w.files x).0;
    processed = w.processed ++ x ∷ [];
  }

  unfoldable pub work : CompressionWorker → CompressionWorker
  work w = if w.running then finish w w.busy else w

  unfoldable pub step : CompressionWorker → Call → CompressionWorker
  step w (enqueues x) = enqueue w x
  step w works = work w
  step w stops = record w { stop = true }

  unfoldable pub run : CompressionWorker → List Call → CompressionWorker
  run w [] = w
  run w (c ∷ cs) = run (step w c) cs

  -- The files after compressing one after another.
  abbrev pub compress_all : CompressType → Files → List FileName → Files
  compress_all type_ files [] = files
  compress_all type_ files (x ∷ xs) =
      compress_all type_ (compress_file pack run_command type_ files x).0 xs

  compress_all-append :
      (type_ : CompressType) (files : Files) (xs ys : List FileName)
      → compress_all type_ files (xs ++ ys) ≡ compress_all type_ (compress_all type_ files xs) ys
  compress_all-append type_ files [] ys = refl
  compress_all-append type_ files (x ∷ xs) ys =
      compress_all-append type_ (compress_file pack run_command type_ files x).0 xs ys

  -- The history is in order, and the files are as if the processed ones were compressed one after
  -- another.
  pub record IsSequential (type_ : CompressType) (files : Files) (w : CompressionWorker)
      : Type 0 where
    pub same_type : w.type_ ≡ type_
    pub in_order : w.enqueued ≡ w.processed ++ (held w.busy ++ w.queue)
    pub as_if : w.files ≡ compress_all type_ files w.processed

  module _ (type_ : CompressType) (files : Files) where
    take_next-IsSequential :
        (w : CompressionWorker) (q : List FileName)
        → w.queue ≡ q
        → w.busy ≡ none
        → IsSequential type_ files w
        → IsSequential type_ files (take_next w q)
    unfolding take_next
    take_next-IsSequential w [] e b v =
        if_elim (IsSequential type_ files) w.stop (record w { running = false }) w
          (λ h. record { same_type = v.same_type; in_order = v.in_order; as_if = v.as_if }) (λ h. v)
    take_next-IsSequential w (x ∷ q) e b v = record {
      same_type = v.same_type;
      in_order =
          v.in_order ∙ ap (λ o. w.processed ++ (held o ++ w.queue)) b ∙ ap (◌++◌ w.processed) e;
      as_if = v.as_if;
    }

    finish-IsSequential :
        (w : CompressionWorker) (o : Option FileName)
        → w.busy ≡ o
        → IsSequential type_ files w
        → IsSequential type_ files (finish w o)
    unfolding finish
    finish-IsSequential w none b v = take_next-IsSequential w w.queue refl b v
    finish-IsSequential w (some x) b v = record {
      same_type = v.same_type;
      in_order =
          v.in_order
          ∙ ap (λ o. w.processed ++ (held o ++ w.queue)) b
          ∙ sym (append_assoc w.processed (x ∷ []) w.queue);
      as_if =
          ap₂ (λ t f. (compress_file pack run_command t f x).0) v.same_type v.as_if
          ∙ sym (compress_all-append type_ files w.processed (x ∷ []));
    }

    step-IsSequential :
        (w : CompressionWorker) (c : Call)
        → IsSequential type_ files w
        → IsSequential type_ files (step w c)
    unfolding step enqueue work
    step-IsSequential w (enqueues x) v = record {
      same_type = v.same_type;
      in_order =
          ap (λ l. l ++ x ∷ []) v.in_order
          ∙ append_assoc w.processed (held w.busy ++ w.queue) (x ∷ [])
          ∙ ap (◌++◌ w.processed) (append_assoc (held w.busy) w.queue (x ∷ []));
      as_if = v.as_if;
    }
    step-IsSequential w works v =
        if_elim (IsSequential type_ files) w.running (finish w w.busy) w
          (λ h. finish-IsSequential w w.busy refl v) (λ h. v)
    step-IsSequential w stops v = record {
      same_type = v.same_type;
      in_order = v.in_order;
      as_if = v.as_if;
    }

    run-IsSequential :
        (w : CompressionWorker) (cs : List Call)
        → IsSequential type_ files w
        → IsSequential type_ files (run w cs)
    unfolding run
    run-IsSequential w [] v = v
    run-IsSequential w (c ∷ cs) v = run-IsSequential (step w c) cs (step-IsSequential w c v)

    new-IsSequential : IsSequential type_ files (new_worker type_ files)
    unfolding new_worker
    new-IsSequential = record { same_type = refl; in_order = refl; as_if = refl }

    nothing_left : (w : CompressionWorker) → wait_done w ≡ true → (held w.busy ++ w.queue) ≡ []
    unfolding wait_done
    nothing_left w h = go w.queue w.busy h
      where
        go :
            (q : List FileName) (o : Option FileName)
            → (no_more q && elim o [ none ↦ true | some x ↦ false ]) ≡ true
            → held o ++ q ≡ []
        go [] none h = refl
        go [] (some x) h = cc
        go (y ∷ q) o h = cc

    -- When `wait()` can return, the files are as if all that were enqueued had been compressed one
    -- after another, in that order, whatever the interleaving of the calls and the thread.
    pub wait_done-compressed :
        (cs : List Call)
        → wait_done (run (new_worker type_ files) cs) ≡ true
        → (run (new_worker type_ files) cs).files
          ≡ compress_all type_ files (run (new_worker type_ files) cs).enqueued
    wait_done-compressed cs h =
        let w = run (new_worker type_ files) cs in
        let v = run-IsSequential (new_worker type_ files) cs new-IsSequential in
        v.as_if
        ∙ ap (compress_all type_ files)
            (sym (v.in_order ∙ ap (◌++◌ w.processed) (nothing_left w h) ∙ append-nil w.processed))
