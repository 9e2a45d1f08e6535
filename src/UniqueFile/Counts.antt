-- ===== src/UniqueFile/Counts.antt =====
-- UniqueFileLogger.hpp: how the steps of a task change the pending calls of each thread.
use log_it_cpp.Base.{
  ℕ, ◌+◌, ◌≡◌, refl, sym, ap, ◌∙◌, Bool, true, false, Option, none, some, List, [], ◌∷◌, ◌++◌,
  if◌then◌else◌, if_elim, subst, Bool-cases, inl, inr, Option-cases, arith,
}
use log_it_cpp.Base.Ints.{ℤ, pos, negsuc, ◌+ℤ◌, +ℤ_parts, eq_of_parts, pos_part}
use log_it_cpp.Base.Store.{◌=?◌, find, put, find-put, =?_refl, =?→eq}
use log_it_cpp.Record.{Bytes}
use log_it_cpp.Format.Fields.{DateTime}
use log_it_cpp.UniqueFile.{
  thread_eq, ThreadLogInfo, Task, UniqueFileLogger, Outside, added, info_of, note_file, write_log,
  note_async, add_pending, remove_old_logs, log_async, run_task,
}

-- The queued tasks of a thread.
abbrev pub waiting : ℕ → List Task → ℕ
waiting thread [] = 0
waiting thread (task ∷ queue) = (if task.thread =? thread then 1 else 0) + waiting thread queue

abbrev pub pending : Option ThreadLogInfo → ℤ
pending i = (info_of i).pending_logs

-- The pending calls of each thread are its queued tasks.
abbrev pub IsCounted : UniqueFileLogger → Type 0
IsCounted s =
    (s.config.is_async ≡ true)
    × ((thread : ℕ) → pending (find thread s.thread_log_info) ≡ pos (waiting thread s.queue))

waiting-append :
    (thread : ℕ) (queue : List Task) (task : Task)
    → waiting thread (queue ++ task ∷ [])
      ≡ waiting thread queue + (if task.thread =? thread then 1 else 0)
waiting-append thread [] task = omega arith
waiting-append thread (t ∷ queue) task = omega (arith, waiting-append thread queue task)

-- The count of a thread after an entry is written for a task's thread.
pending-put :
    (info : List (ℕ × ThreadLogInfo)) (j thread : ℕ) (i : ThreadLogInfo)
    → pending (find thread (put j i info))
      ≡ (if j =? thread then i.pending_logs else pending (find thread info))
pending-put info j thread i = ap pending (find-put thread j i info) ∙ choose (j =? thread)
  where
    choose :
        (b : Bool)
        → pending (if b then some i else find thread info)
          ≡ (if b then i.pending_logs else pending (find thread info))
    choose true = refl
    choose false = refl

one_less : (n : ℕ) → pos (1 + n) +ℤ negsuc 0 ≡ pos n
one_less n =
    eq_of_parts (pos (1 + n) +ℤ negsuc 0) (pos n) (omega (arith, +ℤ_parts (pos (1 + n)) (negsuc 0)))

module _ (date_of : ℤ → DateTime) (ts : Bytes → ℤ) where
  pub log_async-IsCounted :
      (task : Task) (s : UniqueFileLogger)
      → IsCounted s
      → IsCounted (log_async date_of ts added task s)
  unfolding log_async
  log_async-IsCounted task s h = (
    h.0,
    λ thread.
        pending-put s.thread_log_info task.thread thread _
        ∙ elim (Bool-cases (task.thread =? thread)) [
          | inl e ↦
              ap
                (λ b.
                  if b
                  then pending (find task.thread s.thread_log_info) +ℤ pos 1
                  else pending (find thread s.thread_log_info))
                e
              ∙ ap (λ z. z +ℤ pos 1) (h.1 task.thread)
              ∙ one_more (waiting task.thread s.queue)
              ∙ ap (λ t. pos (waiting t s.queue + 1)) (=?→eq task.thread thread e)
              ∙ ap pos (
                  sym (
                    waiting-append thread s.queue task
                    ∙ ap (λ b. waiting thread s.queue + (if b then 1 else 0)) e))
          | inr e ↦
              ap
                (λ b.
                  if b
                  then pending (find task.thread s.thread_log_info) +ℤ pos 1
                  else pending (find thread s.thread_log_info))
                e
              ∙ h.1 thread
              ∙ ap pos (
                  sym (
                    waiting-append thread s.queue task
                    ∙ ap (λ b. waiting thread s.queue + (if b then 1 else 0)) e
                    ∙ omega arith))
        ],
  )
    where
      one_more : (n : ℕ) → pos n +ℤ pos 1 ≡ pos (n + 1)
      one_more n =
          eq_of_parts (pos n +ℤ pos 1) (pos (n + 1)) (omega (arith, +ℤ_parts (pos n) (pos 1)))

  -- The end of a task, whose write leaves the threads and the queue as they are.
  note_async-IsCounted :
      (o : Outside) (task : Task) (file : Option Bytes) (s : UniqueFileLogger) (i : ThreadLogInfo)
      → s.config.is_async ≡ true
      → find task.thread s.thread_log_info ≡ some i
      → ((thread : ℕ)
          → pending (find thread s.thread_log_info) ≡ pos (waiting thread (task ∷ s.queue)))
      → IsCounted (note_async date_of ts o task.thread (file, s) (some i))
  unfolding remove_old_logs
  note_async-IsCounted o task file s i a n h = (
    a,
    λ thread.
        pending-put s.thread_log_info task.thread thread _
        ∙ elim (Bool-cases (task.thread =? thread)) [
          | inl e ↦
              ap (λ b. if b then pending_after else pending (find thread s.thread_log_info)) e
              ∙ noted file
              ∙ ap (λ z. z +ℤ negsuc 0)
                  (ap pending (sym n)
                    ∙ h task.thread
                    ∙ ap (λ b. pos ((if b then 1 else 0) + waiting task.thread s.queue))
                        (=?_refl task.thread))
              ∙ one_less (waiting task.thread s.queue)
              ∙ ap (λ t. pos (waiting t s.queue)) (=?→eq task.thread thread e)
          | inr e ↦
              ap (λ b. if b then pending_after else pending (find thread s.thread_log_info)) e
              ∙ h thread
              ∙ ap (λ b. pos ((if b then 1 else 0) + waiting thread s.queue)) e
              ∙ ap pos (omega arith)
        ],
  )
    where
      pending_after : ℤ
      pending_after = (add_pending date_of ts (negsuc 0) (note_file s.config file i)).pending_logs

      noted :
          (file : Option Bytes)
          → (add_pending date_of ts (negsuc 0) (note_file s.config file i)).pending_logs
            ≡ i.pending_logs +ℤ negsuc 0
      noted none = refl
      noted (some name) = refl

  -- A task that the executor takes.
  pub run_task-IsCounted :
      (o : Outside) (task : Task) (queue : List Task) (s : UniqueFileLogger)
      → s.queue ≡ task ∷ queue
      → IsCounted s
      → IsCounted (run_task date_of ts o task (record s { queue = queue }))
  unfolding run_task write_log
  run_task-IsCounted o task queue s q h = elim (Option-cases (find task.thread s.thread_log_info)) [
    | inl n ↦ absurd (omega (arith, zero_part (sym (counts task.thread) ∙ ap pending n)))
    | inr (i, n) ↦ ap_noted _ i n (
        if_elim
          (λ (r : Option Bytes × UniqueFileLogger).
            IsCounted (note_async date_of ts o task.thread r (some i)))
          o.opens _ _ (λ e. note_async-IsCounted o task (some _) _ i (h.0) n counts)
          (λ e. note_async-IsCounted o task none _ i (h.0) n counts))
  ]
    where
      counts :
          (thread : ℕ)
          → pending (find thread s.thread_log_info) ≡ pos (waiting thread (task ∷ queue))
      counts thread = h.1 thread ∙ ap (λ q. pos (waiting thread q)) q

      zero_part :
          pos (waiting task.thread (task ∷ queue)) ≡ pos 0 → 1 + waiting task.thread queue ≡ 0
      zero_part e =
          ap (λ b. (if b then 1 else 0) + waiting task.thread queue) (sym (=?_refl task.thread))
          ∙ ap pos_part e

      ap_noted :
          (r : Option Bytes × UniqueFileLogger) (i : ThreadLogInfo)
          → find task.thread s.thread_log_info ≡ some i
          → IsCounted (note_async date_of ts o task.thread r (some i))
          → IsCounted (note_async date_of ts o task.thread r (find task.thread s.thread_log_info))
      ap_noted r i n c = subst (λ f. IsCounted (note_async date_of ts o task.thread r f)) (sym n) c
