-- ===== src/Otlp.antt =====
-- loggers/OtlpPayloadLogger.hpp: the queue of log items and the worker that exports batches of
-- them. Each critical section is one step, and so is the export of a batch, which only the worker
-- does. A producer that waits for room stands in `waiting` and wakes at any time. `throws` tells
-- whether the callback throws on a payload. The counters stay below 2^64. `accepted` and `batches`
-- record the history.
pub mod Exports
pub mod Drain
pub mod Json
mod Tests
use log_it_cpp.Base.{
  ℕ, zero, suc, ◌+◌, Bool, true, false, not, ◌&&◌, Option, none, some, List, [], ◌∷◌, ◌++◌, leb,
  ltb, if◌then◌else◌, length, filter, take, drop,
}
use log_it_cpp.Record.{Bytes}
use log_it_cpp.Splitter.{is_empty, build_chunks}

pub record Config : Type 0 where
  pub has_callback : Bool
  pub async : Bool
  pub max_payload_bytes : ℕ
  pub max_batch_size : ℕ
  pub max_queue_size : ℕ
  pub drop_on_overflow : Bool

-- Where the worker is: before its wait, with a batch, or returned.
pub data Worker (Item : Type 0) : Type 0 where
  at_wait : Worker Item
  exporting : List Item → Worker Item
  finished : Worker Item

pub record OtlpPayloadLogger (Item : Type 0) : Type 0 where
  pub queue : List Item
  pub stopping : Bool
  pub idle : Bool
  pub dropped : ℕ
  pub failed_exports : ℕ
  pub worker : Worker Item
  pub waiting : List Item
  pub payloads : List Bytes
  pub accepted : List Item
  pub batches : List (List Item)

-- `log` with the item made from the record; `wakes` is a producer that waits for room; `works` is one
-- section of the worker; `stops` is `stop` before its join.
pub data Call (Item : Type 0) : Type 0 where
  logs : Item → Call Item
  wakes : ℕ → Call Item
  works : Call Item
  stops : Call Item

abbrev pub new_logger : (Item : Type 0) → OtlpPayloadLogger Item
new_logger Item = record {
  queue = [];
  stopping = false;
  idle = true;
  dropped = 0;
  failed_exports = 0;
  worker = at_wait;
  waiting = [];
  payloads = [];
  accepted = [];
  batches = [];
}

-- The condition of `wait()` for an asynchronous logger.
pub wait_done : {Item : Type 0} → OtlpPayloadLogger Item → Bool
wait_done s = is_empty s.queue && s.idle

abbrev pub split_at {ℓ} : {A : Type ℓ} → List A → ℕ → Option (A × List A)
split_at [] i = none
split_at (x ∷ xs) zero = some (x, xs)
split_at (x ∷ xs) (suc i) = elim (split_at xs i) [ none ↦ none | some (y, ys) ↦ some (y, x ∷ ys) ]

module _ {Item : Type 0} (build : List Item → Bytes) (throws : Bytes → Bool) (c : Config) where
  abbrev pub chunks_of : List Item → List Bytes
  chunks_of batch = if is_empty batch then [] else build_chunks build c.max_payload_bytes batch

  -- The callback runs on each chunk; what it throws is counted.
  unfoldable pub export_batch : List Item → OtlpPayloadLogger Item → OtlpPayloadLogger Item
  export_batch batch s = record s {
    payloads = s.payloads ++ chunks_of batch;
    failed_exports = s.failed_exports + length (filter throws (chunks_of batch));
    batches = s.batches ++ batch ∷ [];
  }

  unfoldable pub drop_item : OtlpPayloadLogger Item → OtlpPayloadLogger Item
  drop_item s = record s { dropped = s.dropped + 1 }

  unfoldable pub push_item : Item → OtlpPayloadLogger Item → OtlpPayloadLogger Item
  push_item item s = record s { queue = s.queue ++ item ∷ []; accepted = s.accepted ++ item ∷ [] }

  unfoldable pub log_sync : Item → OtlpPayloadLogger Item → OtlpPayloadLogger Item
  log_sync item s =
      if s.stopping
      then drop_item s
      else export_batch (item ∷ []) (record s { accepted = s.accepted ++ item ∷ [] })

  unfoldable pub log_async : Item → OtlpPayloadLogger Item → OtlpPayloadLogger Item
  log_async item s =
      if s.stopping
      then drop_item s
      else if leb c.max_queue_size (length s.queue) && c.drop_on_overflow
      then drop_item s
      else if leb c.max_queue_size (length s.queue)
      then record s { waiting = s.waiting ++ item ∷ [] }
      else push_item item s

  unfoldable pub log : Item → OtlpPayloadLogger Item → OtlpPayloadLogger Item
  log item s =
      if not c.has_callback then s else if not c.async then log_sync item s else log_async item s

  -- A producer that was waiting, after its wait.
  unfoldable pub wake : Option (Item × List Item) → OtlpPayloadLogger Item → OtlpPayloadLogger Item
  wake none s = s
  wake (some (item, others)) s =
      if s.stopping
      then drop_item (record s { waiting = others })
      else if ltb (length s.queue) c.max_queue_size
      then push_item item (record s { waiting = others })
      else s

  unfoldable pub take_batch : OtlpPayloadLogger Item → OtlpPayloadLogger Item
  take_batch s =
      if is_empty s.queue
      then if s.stopping then record s { idle = true; worker = finished } else s
      else record s {
        idle = false;
        queue = drop c.max_batch_size s.queue;
        worker = exporting (take c.max_batch_size s.queue);
      }

  unfoldable pub work : Worker Item → OtlpPayloadLogger Item → OtlpPayloadLogger Item
  work at_wait s = take_batch s
  work (exporting batch) s = record (export_batch batch s) { idle = true; worker = at_wait }
  work finished s = s

  unfoldable pub step : OtlpPayloadLogger Item → Call Item → OtlpPayloadLogger Item
  step s (logs item) = log item s
  step s (wakes i) = wake (split_at s.waiting i) s
  step s works = work s.worker s
  step s stops = record s { stopping = true }

  unfoldable pub run : OtlpPayloadLogger Item → List (Call Item) → OtlpPayloadLogger Item
  run s [] = s
  run s (call ∷ calls) = run (step s call) calls
