-- ===== src/Logger/Dispatch.antt =====
-- Logger.hpp: which backends a record reaches, and with what text.
use log_it_cpp.Base.{
  ℕ, zero, suc, ◌≡◌, refl, ap, ◌∙◌, Bool, true, false, not, ◌&&◌, ◌||◌, Option, none, some, List,
  [], ◌∷◌, leb, ltb, ◌==◌, if◌then◌else◌, get_elem?, arith,
}
use log_it_cpp.Base.Ints.{ℤ, pos, negsuc}
use log_it_cpp.Record.{Bytes, level_index, LogRecord}
use log_it_cpp.Logger.{
  ILogger, ILogFormatter, LoggerStrategy, Logger, change_nth, passes_through, formatted,
  dispatch_to_strategy, dispatch_to_strategy_if_allowed, dispatch_all, dispatch, log,
}

-- What becomes of the backend at an index.
abbrev pub at_index {ℓ} : {A : Type ℓ} → (A → A) → Option A → Option A
at_index f none = none
at_index f (some a) = some (f a)

choose {ℓ κ} :
    {A : Type ℓ} {M : Type κ} (a b : Bool) (w : M → A) (x y : M)
    → (if a then w x else if b then w x else w y) ≡ w (if a || b then x else y)
choose true b w x y = refl
choose false true w x y = refl
choose false false w x y = refl

-- The tests of the code, in one condition.
guards {ℓ} :
    {A : Type ℓ} (t s e raw : Bool) (l m : ℕ) (st d : A)
    → (if not t && s then st else if not e then st else if not raw && ltb l m then st else d)
      ≡ (if (t || not s) && e && (raw || leb m l) then d else st)
guards t s e raw l m st d = ground arith

under {ℓ} :
    {A : Type ℓ} (a b c : Bool) (d st : A)
    → (if a then some (if b && c then d else st) else some st)
      ≡ some (if a && b && c then d else st)
under true b c d st = refl
under false b c d st = refl

pull {ℓ κ} :
    {A : Type ℓ} {C : Type κ} (b : Bool) (x y : A) (f : A → C)
    → f (if b then x else y) ≡ (if b then f x else f y)
pull true x y f = refl
pull false x y f = refl

get-change_nth :
    {B F : Type 0} (f : LoggerStrategy B F → LoggerStrategy B F)
    (loggers : List (LoggerStrategy B F)) (k i : ℕ)
    → get_elem? (change_nth f loggers k) i
      ≡ (if k == i then at_index f (get_elem? loggers i) else get_elem? loggers i)
get-change_nth f [] k i = ground arith
get-change_nth f (st ∷ loggers) zero zero = refl
get-change_nth f (st ∷ loggers) zero (suc i) = ground arith
get-change_nth f (st ∷ loggers) (suc k) zero = ground arith
get-change_nth f (st ∷ loggers) (suc k) (suc i) = ground (arith, get-change_nth f loggers k i)

module _ {B F : Type 0} (api : ILogger B) (formats : ILogFormatter F) where
  -- A backend takes a record that is for it: the one with the record's index, even in single mode,
  -- or, when the index is negative, each that is not in single mode; unless it is disabled or a
  -- record that is not raw is below its level.
  abbrev pub is_addressed : ℤ → ℕ → Bool → Bool
  is_addressed (pos k) i single_mode = k == i
  is_addressed (negsuc k) i single_mode = not single_mode

  abbrev pub takes : LogRecord → ℤ → ℕ → LoggerStrategy B F → Bool
  takes r index i st =
      is_addressed index i st.single_mode
      && st.enabled
      && (r.raw_mode || leb (level_index (api.level_of st.logger)) (level_index r.log_level))

  abbrev pub text_for : LogRecord → LoggerStrategy B F → Bytes
  text_for r st =
      if r.raw_mode || passes_through api formats st.formatter
      then r.format
      else formatted api formats st.formatter r

  abbrev pub given : LogRecord → LoggerStrategy B F → LoggerStrategy B F
  given r st = record st { logger = api.log_to st.logger r (text_for r st) }

  -- One log call of the backend with the text made for it, or none.
  abbrev pub received : LogRecord → ℤ → ℕ → LoggerStrategy B F → LoggerStrategy B F
  received r index i st = if takes r index i st then given r st else st

  given_lem :
      (st : LoggerStrategy B F) (r : LogRecord) → dispatch_to_strategy api formats st r ≡ given r st
  unfolding dispatch_to_strategy
  given_lem st r =
      choose r.raw_mode (passes_through api formats st.formatter)
        (λ m. record st { logger = api.log_to st.logger r m }) r.format
        (formatted api formats st.formatter r)

  allowed_lem :
      (st : LoggerStrategy B F) (r : LogRecord) (targeted : Bool)
      → dispatch_to_strategy_if_allowed api formats st r targeted ≡ (
          if (targeted || not st.single_mode)
            && st.enabled
            && (r.raw_mode || leb (level_index (api.level_of st.logger)) (level_index r.log_level))
          then given r st
          else st)
  unfolding dispatch_to_strategy_if_allowed
  allowed_lem st r targeted =
      guards targeted st.single_mode st.enabled r.raw_mode (level_index r.log_level)
        (level_index (api.level_of st.logger)) st (dispatch_to_strategy api formats st r)
      ∙ ap
          (λ d.
            if (targeted || not st.single_mode)
              && st.enabled
              && (r.raw_mode
                  || leb (level_index (api.level_of st.logger)) (level_index r.log_level))
            then d
            else st)
          (given_lem st r)

  get-dispatch_all :
      (r : LogRecord) (loggers : List (LoggerStrategy B F)) (k i : ℕ)
      → get_elem? (dispatch_all api formats r loggers) i
        ≡ at_index (received r (negsuc k) i) (get_elem? loggers i)
  unfolding dispatch_all
  get-dispatch_all r [] k i = refl
  get-dispatch_all r (st ∷ loggers) k zero = ap some (allowed_lem st r false)
  get-dispatch_all r (st ∷ loggers) k (suc i) = get-dispatch_all r loggers k i

  get-dispatch :
      (r : LogRecord) (index : ℤ) (loggers : List (LoggerStrategy B F)) (i : ℕ)
      → get_elem? (dispatch api formats r index loggers) i
        ≡ at_index (received r index i) (get_elem? loggers i)
  unfolding dispatch
  get-dispatch r (negsuc k) loggers i = get-dispatch_all r loggers k i
  get-dispatch r (pos k) loggers i =
      get-change_nth (λ st. dispatch_to_strategy_if_allowed api formats st r true) loggers k i
      ∙ addressed (get_elem? loggers i)
    where
      addressed :
          (o : Option (LoggerStrategy B F))
          → (if k == i
              then at_index (λ st. dispatch_to_strategy_if_allowed api formats st r true) o
              else o)
            ≡ at_index (received r (pos k) i) o
      addressed none = ground arith
      addressed (some st) =
          ap (λ d. if k == i then some d else some st) (allowed_lem st r true)
          ∙ under (k == i) st.enabled
              (r.raw_mode || leb (level_index (api.level_of st.logger)) (level_index r.log_level))
              (given r st) st

  -- A log call that is not after shutdown gives each backend the record once, with its text,
  -- exactly when the backend takes it, and leaves all else of the registry as it is; after shutdown
  -- it does nothing.
  pub get-log :
      (r : LogRecord) (s : Logger B F) (i : ℕ)
      → get_elem? (log api formats r s).loggers i ≡ (
          if s.is_shutdown
          then get_elem? s.loggers i
          else at_index (received r r.logger_index i) (get_elem? s.loggers i))
  unfolding log
  get-log r s i =
      pull s.is_shutdown s (record s { loggers = dispatch api formats r r.logger_index s.loggers })
        (λ u. get_elem? u.loggers i)
      ∙ ap (λ o. if s.is_shutdown then get_elem? s.loggers i else o)
          (get-dispatch r r.logger_index s.loggers i)
