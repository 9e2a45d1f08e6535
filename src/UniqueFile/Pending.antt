-- ===== src/UniqueFile/Pending.antt =====
-- UniqueFileLogger.hpp: the pending calls of each thread, over all runs of an asynchronous logger.
use log_it_cpp.Base.{
  ℕ, ◌≡◌, refl, sym, ap, ◌∙◌, Bool, true, false, ◌&&◌, Option, none, some, List, [], ◌∷◌,
  if◌then◌else◌, ◌==◌, ◌≢◌, and_parts, if_elim, arith,
}
use log_it_cpp.Base.Ints.{ℤ, pos, pos_part}
use log_it_cpp.Base.Store.{find}
use log_it_cpp.Record.{Bytes}
use log_it_cpp.Files.{date_eq}
use log_it_cpp.Format.Fields.{DateTime}
use log_it_cpp.UniqueFile.{
  thread_eq, Config, ThreadLogInfo, Task, UniqueFileLogger, Outside, Admission, added,
  dropped_newest, dropped_oldest, info_of, new_unique_logger, log, log_async, run_task, run_next,
  clear_logs, shutdown, is_done, get_last_log_file_name,
}
use log_it_cpp.UniqueFile.Counts.{
  waiting, pending, IsCounted, log_async-IsCounted, run_task-IsCounted,
}

pub data Call : Type 0 where
  log_call : Admission → Outside → Task → Call
  run_call : Outside → Call
  clear_call : Call
  shutdown_call : Call

abbrev pub is_empty_queue : List Task → Bool
is_empty_queue [] = true
is_empty_queue (task ∷ queue) = false

abbrev pub is_added : Admission → Bool
is_added added = true
is_added _ = false

true_ne_false : true ≢ false
true_ne_false = λ e. cc

module _ (date_of : ℤ → DateTime) (ts : Bytes → ℤ) where
  unfoldable pub step : Call → UniqueFileLogger → UniqueFileLogger
  step (log_call admission o task) s = log date_of ts admission o task s
  step (run_call o) s = run_next date_of ts o s
  step clear_call s = clear_logs s
  step shutdown_call s = shutdown s

  unfoldable pub run : List Call → UniqueFileLogger → UniqueFileLogger
  run [] s = s
  run (call ∷ calls) s = run calls (step call s)

  -- The executor drops no task, and the logger is cleared while no task is queued: no call of log
  -- comes between the wait of clear_logs and its second half.
  abbrev pub is_orderly_call : Call → UniqueFileLogger → Bool
  is_orderly_call (log_call admission o task) s = is_added admission
  is_orderly_call (run_call o) s = true
  is_orderly_call clear_call s = is_empty_queue s.queue
  is_orderly_call shutdown_call s = true

  unfoldable pub is_orderly : List Call → UniqueFileLogger → Bool
  is_orderly [] s = true
  is_orderly (call ∷ calls) s = is_orderly_call call s && is_orderly calls (step call s)

  log-IsCounted :
      (admission : Admission) (o : Outside) (task : Task) (s : UniqueFileLogger)
      → is_added admission ≡ true
      → IsCounted s
      → IsCounted (log date_of ts admission o task s)
  unfolding log
  log-IsCounted added o task s a h =
      let u : UniqueFileLogger = record s { last_log_ts = task.time } in
      if_elim IsCounted s.is_shutdown s _ (λ e. h)
        (λ e.
          if_elim IsCounted s.config.is_async (log_async date_of ts added task u) _
            (λ i. log_async-IsCounted date_of ts task u h)
            (λ i. absurd (true_ne_false (sym (h.0) ∙ i))))
  log-IsCounted dropped_newest o task s a h = absurd (true_ne_false (sym a))
  log-IsCounted dropped_oldest o task s a h = absurd (true_ne_false (sym a))

  run_next-IsCounted :
      (o : Outside) (s : UniqueFileLogger) → IsCounted s → IsCounted (run_next date_of ts o s)
  unfolding run_next
  run_next-IsCounted o s h = by_queue s.queue refl
    where
      by_queue :
          (q : List Task)
          → s.queue ≡ q
          → IsCounted (elim q [
            | [] ↦ s
            | task ∷ queue ↦ run_task date_of ts o task (record s { queue = queue })
          ])
      by_queue [] e = h
      by_queue (task ∷ queue) e = run_task-IsCounted date_of ts o task queue s e h

  clear_logs-IsCounted :
      (s : UniqueFileLogger)
      → is_empty_queue s.queue ≡ true
      → IsCounted s
      → IsCounted (clear_logs s)
  unfolding clear_logs find
  clear_logs-IsCounted s a h =
      if_elim IsCounted s.is_shutdown _ _ (λ e. h)
        (λ e. (h.0, λ thread. none_waits s.queue thread a))
    where
      none_waits :
          (q : List Task) (thread : ℕ) → is_empty_queue q ≡ true → pos 0 ≡ pos (waiting thread q)
      none_waits [] thread a = refl
      none_waits (task ∷ q) thread a = cc

  step-IsCounted :
      (call : Call) (s : UniqueFileLogger)
      → is_orderly_call call s ≡ true
      → IsCounted s
      → IsCounted (step call s)
  unfolding step shutdown
  step-IsCounted (log_call admission o task) s a h = log-IsCounted admission o task s a h
  step-IsCounted (run_call o) s a h = run_next-IsCounted o s h
  step-IsCounted clear_call s a h = clear_logs-IsCounted s a h
  step-IsCounted shutdown_call s a h = h

  run-IsCounted :
      (calls : List Call) (s : UniqueFileLogger)
      → is_orderly calls s ≡ true
      → IsCounted s
      → IsCounted (run calls s)
  unfolding run is_orderly
  run-IsCounted [] s a h = h
  run-IsCounted (call ∷ calls) s a h =
      let p = and_parts (is_orderly_call call s) (is_orderly calls (step call s)) a in
      run-IsCounted calls (step call s) p.1 (step-IsCounted call s p.0 h)

  -- After any orderly calls on a new asynchronous logger (the executor drops no task, and the logger is
  -- cleared while no task is queued), the last file name of a thread is given without waiting exactly
  -- when no task of the thread is queued.
  pub get_last_log_file_name_lem :
      (config : Config) (files : List (Bytes × Bytes)) (calls : List Call) (thread : ℕ)
      → config.is_async ≡ true
      → is_orderly calls (new_unique_logger config files) ≡ true
      → (let s = run calls (new_unique_logger config files) in
          get_last_log_file_name thread s ≡ (
            if waiting thread s.queue == 0
            then some (info_of (find thread s.thread_log_info)).last_file_name
            else none))
  unfolding get_last_log_file_name new_unique_logger find
  get_last_log_file_name_lem config files calls thread a o =
      let s = run calls (new_unique_logger config files) in
      let h = run-IsCounted calls (new_unique_logger config files) o (a, λ t. refl) in
      ap (λ b. if b then some (info_of (find thread s.thread_log_info)).last_file_name else none)
        (by_info (find thread s.thread_log_info) (waiting thread s.queue) (h.1 thread))
    where
      by_info : (i : Option ThreadLogInfo) (n : ℕ) → pending i ≡ pos n → is_done i ≡ (n == 0)
      by_info none n e = let z : 0 ≡ n = ap pos_part e in ground (arith, z)
      by_info (some i) n e = ap (λ z. date_eq z (pos 0)) e ∙ ground arith
