-- ===== src/Startup/Logging.antt =====
-- What the start of a process has to do with its logger.
use rdispatch.Common.{String, Bool, ◌≡◌, Run, done, panic, ◌>>=◌, Yields, yields}
use rdispatch.Common.Json.{Result, ok, err}
use rdispatch.Observability.Logger.{Zap, new_logger, or_panic_logger}

module _ {Level Logger Cfg A : Type 0} (zap : Zap Level Logger) (service : String)
    (level : Cfg → String) (development : Cfg → Bool) (loaded : Result Cfg) (P : A → Type 0) where
  -- The process panics because its logger cannot be made; or it has one, or no configuration, and ends
  -- with `P`.
  pub data LoggedEnds : Run A → Type 0 where
    panics :
        (cfg : Cfg) (e : String)
        → loaded ≡ ok cfg
        → new_logger zap service (level cfg) (development cfg) ≡ err e
        → LoggedEnds panic
    logs :
        {a : A} (cfg : Cfg) (logger : Logger)
        → loaded ≡ ok cfg
        → new_logger zap service (level cfg) (development cfg) ≡ ok logger
        → P a
        → LoggedEnds (done a)
    unconfigured : {a : A} (e : String) → loaded ≡ err e → P a → LoggedEnds (done a)

  LoggedEnds-of_Yields :
      {k : Run A} (cfg : Cfg) (logger : Logger)
      → loaded ≡ ok cfg
      → new_logger zap service (level cfg) (development cfg) ≡ ok logger
      → Yields P k
      → LoggedEnds k
  LoggedEnds-of_Yields cfg logger l e (yields p) = logs cfg logger l e p

  pub logged_ends :
      (k : Run A) (cfg : Cfg) (r : Result Logger)
      → loaded ≡ ok cfg
      → new_logger zap service (level cfg) (development cfg) ≡ r
      → Yields P k
      → LoggedEnds (or_panic_logger zap r >>= λ logger. k)
  unfolding or_panic_logger
  logged_ends k cfg (ok logger) l e y = LoggedEnds-of_Yields cfg logger l e y
  logged_ends k cfg (err e) l f y = panics cfg e l f
