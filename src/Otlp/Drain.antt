-- ===== src/Otlp/Drain.antt =====
-- OtlpPayloadLogger.hpp: the worker comes to the end of the queue.
use log_it_cpp.Base.{
  ℕ, zero, suc, ◌+◌, ◌≡◌, ◌≤◌, ◌<◌, refl, sym, ap, ap₂, subst, ◌∙◌, Bool, true, false, ◌&&◌, List,
  [], ◌∷◌, ◌++◌, append-nil, if_elim, length, length-drop, arith,
}
use log_it_cpp.Record.{Bytes}
use log_it_cpp.Splitter.{is_empty}
use log_it_cpp.Otlp.{
  Config, Worker, at_wait, exporting, finished, OtlpPayloadLogger, Call, works, new_logger,
  wait_done, export_batch, take_batch, work, step, run,
}
use log_it_cpp.Otlp.Exports.{
  flatten, held, is_free, payloads_of, IsFaithful, run-IsFaithful, new_logger-IsFaithful,
}

abbrev pub work_times : {Item : Type 0} → ℕ → List (Call Item)
work_times zero = []
work_times (suc k) = works ∷ work_times k

module _ {Item : Type 0} where
  -- What the worker has to do: two steps for a batch in the queue, one for the batch it has.
  abbrev pub left_steps : Worker Item → List Item → ℕ
  left_steps at_wait q = length q + length q
  left_steps (exporting batch) q = suc (length q + length q)
  left_steps finished q = length q + length q

  abbrev pub is_running : Worker Item → Bool
  is_running at_wait = true
  is_running (exporting batch) = true
  is_running finished = false

  -- At most `k` steps are left.
  record IsNear (k : ℕ) (s : OtlpPayloadLogger Item) : Type 0 where
    idle_ok : s.idle ≡ is_free s.worker
    returned_ok : is_running s.worker ≡ false → s.queue ≡ []
    near : left_steps s.worker s.queue ≤ k

  empty-nil : (xs : List Item) → is_empty xs ≡ true → xs ≡ []
  empty-nil [] h = refl
  empty-nil (x ∷ xs) h = cc

  not_empty : (xs : List Item) → is_empty xs ≡ false → 0 < length xs
  not_empty [] h = cc
  not_empty (x ∷ xs) h = omega arith

  none_left :
      (s : OtlpPayloadLogger Item) (w : Worker Item) (q : List Item)
      → s.worker ≡ w
      → s.queue ≡ q
      → s.idle ≡ is_free w
      → left_steps w q ≤ 0
      → wait_done s ≡ true
  unfolding wait_done
  none_left s at_wait [] e f i h = ap₂ (λ l b. is_empty l && b) f i
  none_left s at_wait (x ∷ q) e f i h = absurd (omega (arith, h))
  none_left s (exporting b) q e f i h = absurd (omega (arith, h))
  none_left s finished [] e f i h = ap₂ (λ l b. is_empty l && b) f i
  none_left s finished (x ∷ q) e f i h = absurd (omega (arith, h))

module _ {Item : Type 0} (build : List Item → Bytes) (throws : Bytes → Bool) (c : Config) where
  -- One step of the worker brings the end nearer.
  work-IsNear :
      (k : ℕ) (s : OtlpPayloadLogger Item) (w : Worker Item)
      → 0 < c.max_batch_size
      → s.worker ≡ w
      → s.idle ≡ is_free w
      → (is_running w ≡ false → s.queue ≡ [])
      → left_steps w s.queue ≤ suc k
      → IsNear k (work build throws c w s) × ((work build throws c w s).accepted ≡ s.accepted)
  unfolding work take_batch export_batch
  work-IsNear k s at_wait m e i r h =
      if_elim (λ (u : OtlpPayloadLogger Item). IsNear k u × (u.accepted ≡ s.accepted))
        (is_empty s.queue) _ _
        (λ z.
          let nil = empty-nil s.queue z in
          if_elim (λ (u : OtlpPayloadLogger Item). IsNear k u × (u.accepted ≡ s.accepted))
            s.stopping (record s { idle = true; worker = finished }) s
            (λ t. (
              record {
                idle_ok = refl;
                returned_ok = λ x. nil;
                near = omega (arith, ap length nil);
              },
              refl,
            ))
            (λ t. (
              record {
                idle_ok = i ∙ ap is_free (sym e);
                returned_ok = λ x. nil;
                near = subst (λ v. left_steps v s.queue ≤ k) (sym e) (omega (arith, ap length nil));
              },
              refl,
            )))
        (λ z. (
          record {
            idle_ok = refl;
            returned_ok = λ x. cc;
            near = omega (arith, length-drop c.max_batch_size s.queue, not_empty s.queue z);
          },
          refl,
        ))
  work-IsNear k s (exporting batch) m e i r h =
      (record { idle_ok = refl; returned_ok = λ x. cc; near = omega (arith, h) }, refl)
  work-IsNear k s finished m e i r h = (
    record {
      idle_ok = i ∙ ap is_free (sym e);
      returned_ok = λ x. r refl;
      near = subst (λ v. left_steps v s.queue ≤ k) (sym e) (omega (arith, ap length (r refl)));
    },
    refl,
  )

  drain :
      (k : ℕ) (s : OtlpPayloadLogger Item)
      → 0 < c.max_batch_size
      → IsNear k s
      → (wait_done (run build throws c s (work_times k)) ≡ true)
        × ((run build throws c s (work_times k)).accepted ≡ s.accepted)
  unfolding run step
  drain zero s m v = (none_left s s.worker s.queue refl refl v.idle_ok v.near, refl)
  drain (suc k) s m v =
      let (near, same) = work-IsNear k s s.worker m refl v.idle_ok v.returned_ok v.near in
      let (done, rest) = drain k (work build throws c s.worker s) m near in (done, rest ∙ same)

  all_sent :
      (w : Worker Item) (s : OtlpPayloadLogger Item)
      → s.worker ≡ w
      → wait_done s ≡ true
      → IsFaithful build throws c s
      → flatten s.batches ≡ s.accepted
  unfolding wait_done
  all_sent w s e d v =
      let (nil, idle) = both (is_empty s.queue) s.idle d in
      sym (
        v.in_order
        ∙ ap₂ (λ b q. flatten s.batches ++ (b ++ q)) (free w e (sym v.idle_ok ∙ idle))
            (empty-nil s.queue nil)
        ∙ append-nil (flatten s.batches))
    where
      both : (a b : Bool) → (a && b) ≡ true → (a ≡ true) × (b ≡ true)
      both true b h = (refl, h)
      both false b h = cc

      free : (w : Worker Item) → s.worker ≡ w → is_free s.worker ≡ true → held s.worker ≡ []
      free at_wait e f = ap held e
      free (exporting b) e f = cc (f, ap is_free e)
      free finished e f = ap held e

  run-append :
      (cs ds : List (Call Item)) (s : OtlpPayloadLogger Item)
      → run build throws c s (cs ++ ds) ≡ run build throws c (run build throws c s cs) ds
  unfolding run
  run-append [] ds s = refl
  run-append (call ∷ cs) ds s = run-append cs ds (step build throws c s call)

  -- For an asynchronous logger with a batch size that is not zero, from any state that calls of any
  -- number of producers and worker steps lead to, while the worker runs: the queue is within its
  -- limit; as many further worker steps as are left end the wait; and then the batches are the
  -- accepted items, none lost, repeated or moved, and the callback has got their payloads in that
  -- order.
  pub exported_lem :
      (calls : List (Call Item))
      → c.async ≡ true
      → 0 < c.max_batch_size
      → is_running (run build throws c (new_logger Item) calls).worker ≡ true
      → let s = run build throws c (new_logger Item) calls in
        let u = run build throws c s (work_times (left_steps s.worker s.queue)) in
        (length s.queue ≤ c.max_queue_size)
        × (wait_done u ≡ true)
        × (flatten u.batches ≡ s.accepted)
        × (u.payloads ≡ payloads_of build throws c u.batches)
  exported_lem calls a m r =
      let s = run build throws c (new_logger Item) calls in
      let more = work_times (left_steps s.worker s.queue) in
      let u = run build throws c s more in
      let before =
        run-IsFaithful build throws c (new_logger Item) calls a
          (new_logger-IsFaithful build throws c) in
      let after = subst (IsFaithful build throws c) (run-append calls more (new_logger Item)) (
        run-IsFaithful build throws c (new_logger Item) (calls ++ more) a
          (new_logger-IsFaithful build throws c)) in
      let (done, same) =
        drain (left_steps s.worker s.queue) s m
          (record { idle_ok = before.idle_ok; returned_ok = λ x. cc (x, r); near = omega arith }) in
      (before.within, done, all_sent u.worker u refl done after ∙ same, after.sent)
