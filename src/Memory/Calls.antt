-- ===== src/Memory/Calls.antt =====
-- MemoryLogger.hpp: sequences of calls of one logger.
use log_it_cpp.Base.{ℕ, ◌+◌, ◌<◌, ◌≡◌, refl, inl, inr, List, [], ◌∷◌, arith, length, Bool-cases}
use log_it_cpp.Base.Ints.{ℤ}
use log_it_cpp.Base.Words.{size_mod}
use log_it_cpp.Record.{Bytes, LogLevel, LogRecord}
use log_it_cpp.Memory.{
  Config, MemoryLogger, init, is_filtered, log, set_log_level, add_log_callback,
  remove_log_callback, clear_logs, cleanup,
}
use log_it_cpp.Memory.Retention.{
  buffered_bytes, IsValid, store-IsValid, store-fits, evict_expired-IsValid, evict_expired-fits,
}

-- The calls of one logger. Reads run `cleanup`.
pub data Call (C : Type 0) : Type 0 where
  logs : LogRecord → Bytes → ℤ → Call C
  reads : ℤ → Call C
  clears : Call C
  sets_level : LogLevel → Call C
  adds_callback : C → Call C
  removes_callback : ℕ → Call C

module _ {C : Type 0} where
  unfoldable pub step : MemoryLogger C → Call C → MemoryLogger C
  step m (logs r message mono) = (log m r message mono).0
  step m (reads now) = cleanup m now
  step m clears = (clear_logs m).0
  step m (sets_level level) = set_log_level m level
  step m (adds_callback callback) = (add_log_callback m callback).0
  step m (removes_callback id) = (remove_log_callback m id).0

  unfoldable pub run : MemoryLogger C → List (Call C) → MemoryLogger C
  run m [] = m
  run m (c ∷ cs) = run (step m c) cs

  -- A logged message leaves the total of the buffered bytes below 2 ^ 64.
  abbrev pub Fits : MemoryLogger C → Call C → Type 0
  Fits m (logs r message mono) = buffered_bytes m.buffer.entries + length message < size_mod
  Fits m _ = Unit {0}

  abbrev pub AllFit : MemoryLogger C → List (Call C) → Type 0
  AllFit m [] = Unit {0}
  AllFit m (c ∷ cs) = Fits m c × AllFit (step m c) cs

  record IsSafe (c : Config) (m : MemoryLogger C) : Type 0 where
    config_same : m.config ≡ c
    valid : IsValid c m.buffer
    small : buffered_bytes m.buffer.entries < size_mod

  step-IsSafe :
      (c : Config) (m : MemoryLogger C) (call : Call C)
      → Fits m call
      → IsSafe c m
      → IsSafe c (step m call)
  unfolding step log
  step-IsSafe c m (logs r message mono) fits s = elim (Bool-cases (is_filtered m r)) [
    | inl e ↦ rw (e, step, log) s
    | inr e ↦
        rw (e, step, log)
          (record {
            config_same = s.config_same;
            valid = rw s.config_same (store-IsValid c _ _ m.buffer s.valid.counted);
            small = store-fits m.config _ _ m.buffer fits;
          })
  ]
  step-IsSafe c m (reads now) fits s =
      unfold step cleanup in
      record {
        config_same = s.config_same;
        valid = rw s.config_same (evict_expired-IsValid c now m.buffer s.valid s.small);
        small = evict_expired-fits m.config now m.buffer s.small;
      }
  step-IsSafe c m clears fits s =
      unfold step clear_logs in
      record {
        config_same = s.config_same;
        valid = record {
          counted = refl;
          few_records = λ p. omega arith;
          few_bytes = λ p. omega arith;
        };
        small = omega arith;
      }
  step-IsSafe c m (sets_level level) fits s =
      unfold step set_log_level in
      record { config_same = s.config_same; valid = s.valid; small = s.small }
  step-IsSafe c m (adds_callback callback) fits s =
      unfold step add_log_callback in
      record { config_same = s.config_same; valid = s.valid; small = s.small }
  step-IsSafe c m (removes_callback id) fits s =
      unfold step remove_log_callback in
      record { config_same = s.config_same; valid = s.valid; small = s.small }

  run-IsSafe :
      (c : Config) (m : MemoryLogger C) (calls : List (Call C))
      → AllFit m calls
      → IsSafe c m
      → IsSafe c (run m calls)
  unfolding run
  run-IsSafe c m [] fits s = s
  run-IsSafe c m (call ∷ calls) fits s =
      run-IsSafe c (step m call) calls fits.1 (step-IsSafe c m call fits.0 s)

-- After any sequence of calls on a new logger whose messages fit in memory, the buffer respects the
-- record and byte limits of its configuration, and the byte counter is exact.
pub run-init-IsValid :
    (C : Type 0) (c : Config) (calls : List (Call C))
    → AllFit (init C c) calls
    → IsValid c (run (init C c) calls).buffer
run-init-IsValid C c calls fits =
    (run-IsSafe c (init C c) calls fits (record {
      config_same = refl;
      valid = record {
        counted = refl;
        few_records = λ p. omega arith;
        few_bytes = λ p. omega arith;
      };
      small = omega arith;
    })).valid
