-- ===== src/Logger/Clearing.antt =====
-- Logger.hpp: the result of clear_all_loggers.
use log_it_cpp.Base.{
  ℕ, ◌+◌, ◌%◌, ◌^◌, ◌≡◌, ◌<◌, refl, sym, ap, ap₂, subst, ◌∙◌, Bool, true, false, not, ◌&&◌, List,
  [], ◌∷◌, map, filter, sum_by, length, ltb, ◌==◌, if◌then◌else◌, if_elim, arith,
}
use log_it_cpp.Record.{Bytes}
use log_it_cpp.Logger.{
  LogClearOptions, LogClearStatus, cleared, unsupported, failed, LogClearResult, ILogger,
  LoggerStrategy, Logger,
}
use log_it_cpp.Logger.Clear.{
  Tally, count_status, clear_loop, clear_report, no_tally, clear_all_loggers, clear_failed, or_else,
  text_shut_down, text_skipped, text_cleared, text_unsupported, text_no_loggers,
}

-- A backend that cleared its records, one that cannot, and one that failed.
abbrev pub has_cleared : LogClearResult → Bool
has_cleared r = elim r.status [ cleared ↦ r.is_ok | unsupported ↦ false | failed ↦ false ]

abbrev pub is_unsupported : LogClearResult → Bool
is_unsupported r = elim r.status [ cleared ↦ false | unsupported ↦ true | failed ↦ false ]

abbrev pub has_failed : LogClearResult → Bool
has_failed r = elim r.status [ cleared ↦ not r.is_ok | unsupported ↦ false | failed ↦ true ]

abbrev pub count : (LogClearResult → Bool) → List LogClearResult → ℕ
count p rs = length (filter p rs)

-- The loop's counters, one result after another.
abbrev count_all : List LogClearResult → Tally → Tally
count_all [] t = t
count_all (r ∷ rs) t = count_all rs (count_status r.status r t)

record Counts (rs : List LogClearResult) (t u : Tally) : Type 0 where
  supported_ok : u.supported ≡ t.supported + count has_cleared rs
  failures_ok : u.failures ≡ t.failures + count has_failed rs
  skipped_ok : u.skipped ≡ t.skipped + count is_unsupported rs
  records_ok :
      u.records ≡ (t.records + sum_by (λ r. r.cleared_records) (filter has_cleared rs)) % 2 ^ 64

count_one :
    (is_ok : Bool) (status : LogClearStatus) (n : ℕ) (text : Bytes) (rs : List LogClearResult)
    (t u : Tally)
    → Counts rs
        (count_status status
          (record { is_ok = is_ok; status = status; cleared_records = n; message = text })
          t)
        u
    → Counts
        (record { is_ok = is_ok; status = status; cleared_records = n; message = text } ∷ rs)
        t
        u
unfolding count_status
count_one true cleared n text rs t u v = record {
  supported_ok = omega (arith, v.supported_ok);
  failures_ok = v.failures_ok;
  skipped_ok = v.skipped_ok;
  records_ok = omega (arith, v.records_ok);
}
count_one false cleared n text rs t u v = record {
  supported_ok = v.supported_ok;
  failures_ok = omega (arith, v.failures_ok);
  skipped_ok = v.skipped_ok;
  records_ok = v.records_ok;
}
count_one is_ok unsupported n text rs t u v = record {
  supported_ok = v.supported_ok;
  failures_ok = v.failures_ok;
  skipped_ok = omega (arith, v.skipped_ok);
  records_ok = v.records_ok;
}
count_one is_ok failed n text rs t u v = record {
  supported_ok = v.supported_ok;
  failures_ok = omega (arith, v.failures_ok);
  skipped_ok = v.skipped_ok;
  records_ok = v.records_ok;
}

count_all-Counts :
    (rs : List LogClearResult) (t : Tally) → t.records < 2 ^ 64 → Counts rs t (count_all rs t)
count_all-Counts [] t h = record {
  supported_ok = omega arith;
  failures_ok = omega arith;
  skipped_ok = omega arith;
  records_ok = omega arith;
}
count_all-Counts (r ∷ rs) t h =
    count_one r.is_ok r.status r.cleared_records r.message rs t
      (count_all rs (count_status r.status r t))
      (count_all-Counts rs (count_status r.status r t) (stays r.status r t h))
  where
    stays :
        (status : LogClearStatus) (r : LogClearResult) (t : Tally)
        → t.records < 2 ^ 64
        → (count_status status r t).records < 2 ^ 64
    stays cleared r t h =
        unfold count_status in
        if_elim (λ (u : Tally). u.records < 2 ^ 64) r.is_ok _ _ (λ e. omega arith) (λ e. h)
    stays unsupported r t h = unfold count_status in h
    stays failed r t h = unfold count_status in h

report_parts :
    (u : Tally)
    → ((clear_report u).is_ok ≡ (ltb 0 u.supported && u.failures == 0))
      × ((clear_report u).cleared_records ≡ u.records)
      × ((clear_report u).status ≡ (
          if ltb 0 u.supported && u.failures == 0
          then cleared
          else if ltb 0 u.skipped && u.failures == 0
          then unsupported
          else failed))
unfolding clear_report
report_parts u = go (ltb 0 u.supported && u.failures == 0)
  where
    go :
        (ok : Bool)
        → let r : LogClearResult =
            if ok
            then record {
              is_ok = true;
              status = cleared;
              cleared_records = u.records;
              message = if ltb 0 u.skipped then text_skipped else text_cleared;
            }
            else record {
              is_ok = false;
              status = if ltb 0 u.skipped && u.failures == 0 then unsupported else failed;
              cleared_records = u.records;
              message =
                  or_else u.first_message
                    (if ltb 0 u.skipped then text_unsupported else text_no_loggers);
            } in
          (r.is_ok ≡ ok)
          × (r.cleared_records ≡ u.records)
          × (r.status ≡ (
              if ok
              then cleared
              else if ltb 0 u.skipped && u.failures == 0
              then unsupported
              else failed))
    go true = (refl, refl, refl)
    go false = (refl, refl, refl)

report_lem :
    (rs : List LogClearResult) (u : Tally)
    → Counts rs no_tally u
    → ((clear_report u).is_ok ≡ (ltb 0 (count has_cleared rs) && count has_failed rs == 0))
      × ((clear_report u).cleared_records
          ≡ sum_by (λ r. r.cleared_records) (filter has_cleared rs) % 2 ^ 64)
      × ((clear_report u).status ≡ (
          if ltb 0 (count has_cleared rs) && count has_failed rs == 0
          then cleared
          else if ltb 0 (count is_unsupported rs) && count has_failed rs == 0
          then unsupported
          else failed))
report_lem rs u v =
    let (a, b, c) = report_parts u in
    let some_cleared : u.supported ≡ count has_cleared rs = omega (arith, v.supported_ok) in
    let some_failed : u.failures ≡ count has_failed rs = omega (arith, v.failures_ok) in
    let some_skipped : u.skipped ≡ count is_unsupported rs = omega (arith, v.skipped_ok) in
    (
      a ∙ ap₂ (λ n m. ltb 0 n && m == 0) some_cleared some_failed,
      b ∙ omega (arith, v.records_ok),
      c
          ∙ ap₂
              (λ n m.
                if ltb 0 n && m == 0
                then cleared
                else if ltb 0 u.skipped && m == 0
                then unsupported
                else failed)
              some_cleared some_failed
          ∙ ap
              (λ k.
                if ltb 0 (count has_cleared rs) && count has_failed rs == 0
                then cleared
                else if ltb 0 k && count has_failed rs == 0
                then unsupported
                else failed)
              some_skipped,
    )

nothing_yet : no_tally.records < 2 ^ 64
nothing_yet = omega arith

module _ {B F : Type 0} (api : ILogger B) where
  abbrev pub cleared_strategy : LogClearOptions → LoggerStrategy B F → LoggerStrategy B F
  cleared_strategy o st = record st { logger = (api.clear st.logger o).0 }

  abbrev pub results_of : LogClearOptions → List (LoggerStrategy B F) → List LogClearResult
  results_of o l = map (λ (st : LoggerStrategy B F). (api.clear st.logger o).1) l

  loop-count_all :
      (o : LogClearOptions) (l : List (LoggerStrategy B F)) (t : Tally)
      → clear_loop api o l t ≡ (map (cleared_strategy o) l, count_all (results_of o l) t)
  unfolding clear_loop
  loop-count_all o [] t = refl
  loop-count_all o (st ∷ l) t =
      ap (λ (u : List (LoggerStrategy B F) × Tally). (cleared_strategy o st ∷ u.0, u.1))
        (loop-count_all o l
          (count_status (api.clear st.logger o).1.status (api.clear st.logger o).1 t))

  -- Outside a shutdown, clear_all_loggers clears every backend once; with the results that they
  -- gave it succeeds exactly when some backend cleared its records and none failed, it is
  -- unsupported when none failed or cleared but some cannot, and failed otherwise; and it counts
  -- the records that were cleared (as a size_t).
  pub clear_all_loggers_lem :
      (o : LogClearOptions) (s : Logger B F)
      → s.is_shutdown ≡ false
      → let rs = results_of o s.loggers in
        let (u, r) = clear_all_loggers api o s in
        let ok = ltb 0 (count has_cleared rs) && count has_failed rs == 0 in
        (u.loggers ≡ map (cleared_strategy o) s.loggers)
        × (r.is_ok ≡ ok)
        × (r.cleared_records ≡ sum_by (λ r. r.cleared_records) (filter has_cleared rs) % 2 ^ 64)
        × (r.status ≡ (
            if ok
            then cleared
            else if ltb 0 (count is_unsupported rs) && count has_failed rs == 0
            then unsupported
            else failed))
  unfolding clear_all_loggers
  clear_all_loggers_lem o s h =
      let l = clear_loop api o s.loggers no_tally in
      let ran =
        ap
          (λ b.
            if b
            then (s, clear_failed text_shut_down)
            else (record s { loggers = l.0 }, clear_report l.1))
          h in
      let looped = loop-count_all o s.loggers no_tally in
      let rs = results_of o s.loggers in
      let (a, b, c) = report_lem rs l.1 (
        subst (Counts rs no_tally)
          (sym (ap (λ (u : List (LoggerStrategy B F) × Tally). u.1) looped))
          (count_all-Counts rs no_tally nothing_yet)) in
      (
        ap (λ (u : Logger B F × LogClearResult). u.0.loggers) ran
            ∙ ap (λ (u : List (LoggerStrategy B F) × Tally). u.0) looped,
        ap (λ (u : Logger B F × LogClearResult). u.1.is_ok) ran ∙ a,
        ap (λ (u : Logger B F × LogClearResult). u.1.cleared_records) ran ∙ b,
        ap (λ (u : Logger B F × LogClearResult). u.1.status) ran ∙ c,
      )
