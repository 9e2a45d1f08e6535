-- ===== src/Otlp/Tests.antt =====
-- OtlpPayloadLogger.hpp: three items, exported two at a time.
use log_it_cpp.Base.{ℕ, ◌≡◌, ◌≤◌, refl, Bool, true, false, List, [], ◌∷◌, ◌++◌, length, arith}
use log_it_cpp.Record.{Bytes}
use log_it_cpp.Otlp.{
  Config, Call, logs, works, new_logger, wait_done, drop_item, push_item, log_async, log,
  take_batch, work, step, run,
}
use log_it_cpp.Otlp.Exports.{flatten, payloads_of}
use log_it_cpp.Otlp.Drain.{work_times, left_steps, exported_lem}

abbrev listed : List ℕ → Bytes
listed items = 91 ∷ (items ++ 93 ∷ [])

abbrev never : Bytes → Bool
never payload = false

abbrev two_at_a_time : Config
two_at_a_time = record {
  has_callback = true;
  async = true;
  max_payload_bytes = 100;
  max_batch_size = 2;
  max_queue_size = 3;
  drop_on_overflow = true;
}

-- The fourth item is dropped.
abbrev calls : List (Call ℕ)
calls = logs 1 ∷ logs 2 ∷ logs 3 ∷ logs 4 ∷ works ∷ []

dropped_test : (run listed never two_at_a_time (new_logger ℕ) calls).dropped ≡ 1
unfolding run step log log_async push_item drop_item work take_batch
dropped_test = refl

exported_lem_example :
    let s = run listed never two_at_a_time (new_logger ℕ) calls in
    let u = run listed never two_at_a_time s (work_times (left_steps s.worker s.queue)) in
    (length s.queue ≤ 3)
    × (wait_done u ≡ true)
    × (flatten u.batches ≡ s.accepted)
    × (u.payloads ≡ payloads_of listed never two_at_a_time u.batches)
unfolding run step log log_async push_item drop_item work take_batch
exported_lem_example = exported_lem listed never two_at_a_time calls refl (omega arith) refl
