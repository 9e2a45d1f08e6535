-- ===== src/Otlp/Exports.antt =====
-- OtlpPayloadLogger.hpp: what is exported is what was accepted, in that order.
use log_it_cpp.Base.{
  ◌≡◌, ◌≤◌, ◌<◌, refl, sym, ap, ◌∙◌, Bool, true, false, not, ◌&&◌, Option, none, some, List, [],
  ◌∷◌, ◌++◌, append_assoc, append-nil, leb, ltb, if_elim, length, length-append, length-drop,
  take-append-drop, arith,
}
use log_it_cpp.Record.{Bytes}
use log_it_cpp.Splitter.{is_empty}
use log_it_cpp.Otlp.{
  Config, Worker, at_wait, exporting, finished, OtlpPayloadLogger, Call, logs, wakes, works, stops,
  new_logger, split_at, chunks_of, export_batch, drop_item, push_item, log_async, log, wake,
  take_batch, work, step, run,
}

abbrev pub flatten {ℓ} : {A : Type ℓ} → List (List A) → List A
flatten [] = []
flatten (xs ∷ xss) = xs ++ flatten xss

flatten-append_last {ℓ} :
    {A : Type ℓ} (xss : List (List A)) (xs : List A) → flatten (xss ++ xs ∷ []) ≡ flatten xss ++ xs
flatten-append_last [] xs = append-nil xs
flatten-append_last (ys ∷ xss) xs =
    ap (◌++◌ ys) (flatten-append_last xss xs) ∙ sym (append_assoc ys (flatten xss) xs)

module _ {Item : Type 0} where
  -- The batch that the worker has.
  abbrev pub held : Worker Item → List Item
  held at_wait = []
  held (exporting batch) = batch
  held finished = []

  abbrev pub is_free : Worker Item → Bool
  is_free at_wait = true
  is_free (exporting batch) = false
  is_free finished = true

  empty-nil : (xs : List Item) → is_empty xs ≡ true → xs ≡ []
  empty-nil [] h = refl
  empty-nil (x ∷ xs) h = cc

module _ {Item : Type 0} (build : List Item → Bytes) (throws : Bytes → Bool) (c : Config) where
  -- The payloads of batches one after another.
  abbrev pub payloads_of : List (List Item) → List Bytes
  payloads_of [] = []
  payloads_of (batch ∷ batches) = chunks_of build throws c batch ++ payloads_of batches

  payloads_of-append_last :
      (batches : List (List Item)) (batch : List Item)
      → payloads_of (batches ++ batch ∷ []) ≡ payloads_of batches ++ chunks_of build throws c batch
  payloads_of-append_last [] batch = append-nil _
  payloads_of-append_last (b ∷ batches) batch =
      ap (◌++◌ (chunks_of build throws c b)) (payloads_of-append_last batches batch)
      ∙ sym (
          append_assoc (chunks_of build throws c b) (payloads_of batches)
            (chunks_of build throws c batch))

  -- Nothing is lost, repeated or moved; the queue is within its limit; and the worker is idle
  -- exactly when it has no batch.
  pub record IsFaithful (s : OtlpPayloadLogger Item) : Type 0 where
    pub in_order : s.accepted ≡ flatten s.batches ++ (held s.worker ++ s.queue)
    pub sent : s.payloads ≡ payloads_of s.batches
    pub within : length s.queue ≤ c.max_queue_size
    pub idle_ok : s.idle ≡ is_free s.worker

  push-IsFaithful :
      (item : Item) (s : OtlpPayloadLogger Item)
      → length s.queue < c.max_queue_size
      → IsFaithful s
      → IsFaithful (push_item build throws c item s)
  unfolding push_item
  push-IsFaithful item s h v = record {
    in_order =
        ap (λ l. l ++ item ∷ []) v.in_order
        ∙ append_assoc (flatten s.batches) (held s.worker ++ s.queue) (item ∷ [])
        ∙ ap (◌++◌ (flatten s.batches)) (append_assoc (held s.worker) s.queue (item ∷ []));
    sent = v.sent;
    within = omega (arith, length-append s.queue (item ∷ []));
    idle_ok = v.idle_ok;
  }

  -- A change of what the history does not tell.
  drop-IsFaithful :
      (s : OtlpPayloadLogger Item) → IsFaithful s → IsFaithful (drop_item build throws c s)
  unfolding drop_item
  drop-IsFaithful s v = record {
    in_order = v.in_order;
    sent = v.sent;
    within = v.within;
    idle_ok = v.idle_ok;
  }

  waiting-IsFaithful :
      (s : OtlpPayloadLogger Item) (w : List Item)
      → IsFaithful s
      → IsFaithful (record s { waiting = w })
  waiting-IsFaithful s w v = record {
    in_order = v.in_order;
    sent = v.sent;
    within = v.within;
    idle_ok = v.idle_ok;
  }

  log_async-IsFaithful :
      (item : Item) (s : OtlpPayloadLogger Item)
      → IsFaithful s
      → IsFaithful (log_async build throws c item s)
  unfolding log_async
  log_async-IsFaithful item s v =
      let full = leb c.max_queue_size (length s.queue) in
      if_elim IsFaithful s.stopping _ _ (λ h. drop-IsFaithful s v)
        (λ h.
          if_elim IsFaithful (full && c.drop_on_overflow) _ _ (λ k. drop-IsFaithful s v)
            (λ k.
              if_elim IsFaithful full _ _ (λ e. waiting-IsFaithful s _ v)
                (λ e. push-IsFaithful item s (ground (arith, e)) v)))

  log-IsFaithful :
      (item : Item) (s : OtlpPayloadLogger Item)
      → c.async ≡ true
      → IsFaithful s
      → IsFaithful (log build throws c item s)
  unfolding log
  log-IsFaithful item s a v =
      if_elim IsFaithful (not c.has_callback) _ _ (λ h. v)
        (λ h.
          if_elim IsFaithful (not c.async) _ _ (λ k. absurd (cc (k, a)))
            (λ k. log_async-IsFaithful item s v))

  wake-IsFaithful :
      (o : Option (Item × List Item)) (s : OtlpPayloadLogger Item)
      → IsFaithful s
      → IsFaithful (wake build throws c o s)
  unfolding wake
  wake-IsFaithful none s v = v
  wake-IsFaithful (some (item, others)) s v =
      if_elim IsFaithful s.stopping _ _ (λ h. drop-IsFaithful _ (waiting-IsFaithful s others v))
        (λ h.
          if_elim IsFaithful (ltb (length s.queue) c.max_queue_size) _ _
            (λ k. push-IsFaithful item _ (ground (arith, k)) (waiting-IsFaithful s others v))
            (λ k. v))

  take_batch-IsFaithful :
      (s : OtlpPayloadLogger Item)
      → s.worker ≡ at_wait
      → IsFaithful s
      → IsFaithful (take_batch build throws c s)
  unfolding take_batch
  take_batch-IsFaithful s w v =
      let order = v.in_order ∙ ap (λ x. flatten s.batches ++ (held x ++ s.queue)) w in
      if_elim IsFaithful (is_empty s.queue) _ _
        (λ h.
          if_elim IsFaithful s.stopping (record s { idle = true; worker = finished }) s
            (λ k. record { in_order = order; sent = v.sent; within = v.within; idle_ok = refl })
            (λ k. v))
        (λ h. record {
          in_order =
              order
              ∙ ap (◌++◌ (flatten s.batches)) (sym (take-append-drop c.max_batch_size s.queue));
          sent = v.sent;
          within = omega (arith, length-drop c.max_batch_size s.queue, v.within);
          idle_ok = refl;
        })

  work-IsFaithful :
      (s : OtlpPayloadLogger Item) (w : Worker Item)
      → s.worker ≡ w
      → IsFaithful s
      → IsFaithful (work build throws c w s)
  unfolding work export_batch
  work-IsFaithful s at_wait e v = take_batch-IsFaithful s e v
  work-IsFaithful s finished e v = v
  work-IsFaithful s (exporting batch) e v = record {
    in_order =
        v.in_order
        ∙ ap (λ x. flatten s.batches ++ (held x ++ s.queue)) e
        ∙ sym (append_assoc (flatten s.batches) batch s.queue)
        ∙ ap (λ l. l ++ s.queue) (sym (flatten-append_last s.batches batch));
    sent =
        ap (λ l. l ++ chunks_of build throws c batch) v.sent
        ∙ sym (payloads_of-append_last s.batches batch);
    within = v.within;
    idle_ok = refl;
  }

  step-IsFaithful :
      (s : OtlpPayloadLogger Item) (call : Call Item)
      → c.async ≡ true
      → IsFaithful s
      → IsFaithful (step build throws c s call)
  unfolding step
  step-IsFaithful s (logs item) a v = log-IsFaithful item s a v
  step-IsFaithful s (wakes i) a v = wake-IsFaithful (split_at s.waiting i) s v
  step-IsFaithful s works a v = work-IsFaithful s s.worker refl v
  step-IsFaithful s stops a v = record {
    in_order = v.in_order;
    sent = v.sent;
    within = v.within;
    idle_ok = v.idle_ok;
  }

  pub run-IsFaithful :
      (s : OtlpPayloadLogger Item) (calls : List (Call Item))
      → c.async ≡ true
      → IsFaithful s
      → IsFaithful (run build throws c s calls)
  unfolding run
  run-IsFaithful s [] a v = v
  run-IsFaithful s (call ∷ calls) a v =
      run-IsFaithful (step build throws c s call) calls a (step-IsFaithful s call a v)

  pub new_logger-IsFaithful : IsFaithful (new_logger Item)
  new_logger-IsFaithful = record {
    in_order = refl;
    sent = refl;
    within = omega arith;
    idle_ok = refl;
  }
