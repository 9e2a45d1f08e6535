-- ===== src/Logger/Calls.antt =====
-- Logger.hpp: sequences of calls, and what shutdown leaves.
use log_it_cpp.Base.{
  ◌≡◌, refl, sym, ap, ap₂, subst, ◌∙◌, Bool, true, false, Option, List, [], ◌∷◌, map, if◌then◌else◌,
}
use log_it_cpp.Base.Ints.{ℤ}
use log_it_cpp.Record.{LogLevel, LogRecord}
use log_it_cpp.Logger.{
  LogClearOptions, ILogger, ILogFormatter, LoggerStrategy, Logger, add_logger, set_logger_enabled,
  set_logger_single_mode, set_timestamp_offset, set_log_level_all, set_log_level, log, waited, wait,
  shut_strategy, shutdown,
}
use log_it_cpp.Logger.Clear.{clear_logger, clear_all_loggers}

-- The calls that change something.
pub data Call (B F : Type 0) : Type 0 where
  adds : B → Option F → Bool → Call B F
  enables : ℤ → Bool → Call B F
  singles : ℤ → Bool → Call B F
  offsets : ℤ → ℤ → Call B F
  levels_all : LogLevel → Call B F
  levels : ℤ → LogLevel → Call B F
  logs : LogRecord → Call B F
  waits : Call B F
  clears : ℤ → LogClearOptions → Call B F
  clears_all : LogClearOptions → Call B F
  shuts_down : Call B F

module _ {B F : Type 0} (api : ILogger B) (formats : ILogFormatter F) where
  pub step : Logger B F → Call B F → Logger B F
  step s (adds b f single) = add_logger b f single s
  step s (enables i b) = set_logger_enabled i b s
  step s (singles i b) = set_logger_single_mode i b s
  step s (offsets i ms) = set_timestamp_offset api formats i ms s
  step s (levels_all l) = set_log_level_all api formats l s
  step s (levels i l) = set_log_level api formats i l s
  step s (logs r) = log api formats r s
  step s waits = wait api formats s
  step s (clears i o) = (clear_logger api i o s).0
  step s (clears_all o) = (clear_all_loggers api o s).0
  step s shuts_down = shutdown api formats s

  pub run : Logger B F → List (Call B F) → Logger B F
  run s [] = s
  run s (c ∷ cs) = run (step s c) cs

  -- Waiting for a backend that is shut down changes nothing.
  abbrev pub IsSettled : B → Type 0
  IsSettled b = api.wait_for b ≡ b

  -- Every backend is as its shutdown left it.
  record IsDown (s : Logger B F) : Type 0 where
    down : s.is_shutdown ≡ true
    settled : map (waited api formats) s.loggers ≡ s.loggers

  -- A call that begins with `if (m_shutdown) return`.
  guarded {ℓ} :
      {A : Type ℓ} (s : Logger B F) (x y : A)
      → s.is_shutdown ≡ true
      → (if s.is_shutdown then x else y) ≡ x
  guarded s x y h = ap (λ b. if b then x else y) h

  step-IsDown : (s : Logger B F) (c : Call B F) → IsDown s → step s c ≡ s
  unfolding step add_logger set_logger_enabled set_logger_single_mode set_timestamp_offset
      set_log_level_all set_log_level log wait clear_logger clear_all_loggers shutdown
  step-IsDown s (adds b f single) v = guarded s s _ v.down
  step-IsDown s (enables i b) v = guarded s s _ v.down
  step-IsDown s (singles i b) v = guarded s s _ v.down
  step-IsDown s (offsets i ms) v = guarded s s _ v.down
  step-IsDown s (levels_all l) v = guarded s s _ v.down
  step-IsDown s (levels i l) v = guarded s s _ v.down
  step-IsDown s (logs r) v = guarded s s _ v.down
  step-IsDown s waits v = ap (λ l. record s { loggers = l }) v.settled
  step-IsDown s (clears i o) v = ap (λ (u : Logger B F × _). u.0) (guarded s _ _ v.down)
  step-IsDown s (clears_all o) v = ap (λ (u : Logger B F × _). u.0) (guarded s _ _ v.down)
  step-IsDown s shuts_down v = guarded s s _ v.down

  run-IsDown : (s : Logger B F) (cs : List (Call B F)) → IsDown s → run s cs ≡ s
  unfolding run
  run-IsDown s [] v = refl
  run-IsDown s (c ∷ cs) v = ap (λ u. run u cs) (step-IsDown s c v) ∙ run-IsDown s cs v

  settle :
      ((b : B) → IsSettled (api.shut b))
      → (l : List (LoggerStrategy B F))
      → map (waited api formats) (map (shut_strategy api formats) l)
        ≡ map (shut_strategy api formats) l
  settle h [] = refl
  settle h (st ∷ l) = ap₂ (◌∷◌) (ap (λ b. record st { logger = b }) (h st.logger)) (settle h l)

  shutdown-IsDown :
      ((b : B) → IsSettled (api.shut b))
      → (s : Logger B F) → s.is_shutdown ≡ false
      → IsDown (shutdown api formats s)
  unfolding shutdown
  shutdown-IsDown h s e =
      subst IsDown
        (sym (
          ap
            (λ b. if b then s else record {
              loggers = map (shut_strategy api formats) s.loggers;
              is_shutdown = true;
              executor_stopped = true;
            })
            e))
        (record { down = refl; settled = settle h s.loggers })

  -- Where waiting for a backend that is shut down changes nothing: after the first shutdown each
  -- backend has been shut down once, the executor too, and no sequence of calls changes anything
  -- any more.
  pub run-shutdown :
      ((b : B) → IsSettled (api.shut b))
      → (s : Logger B F) (cs : List (Call B F)) → s.is_shutdown ≡ false
      → (run (shutdown api formats s) cs ≡ shutdown api formats s)
        × ((shutdown api formats s).loggers ≡ map (shut_strategy api formats) s.loggers)
        × ((shutdown api formats s).executor_stopped ≡ true)
  unfolding shutdown
  run-shutdown h s cs e =
      let closed : Logger B F = record {
        loggers = map (shut_strategy api formats) s.loggers;
        is_shutdown = true;
        executor_stopped = true;
      } in
      let shut = ap (λ b. if b then s else closed) e in
      (
        run-IsDown (shutdown api formats s) cs (shutdown-IsDown h s e),
        ap (λ (u : Logger B F). u.loggers) shut,
        ap (λ (u : Logger B F). u.executor_stopped) shut,
      )
