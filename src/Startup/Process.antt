-- ===== src/Startup/Process.antt =====
-- `run` of cmd/delivery-worker/main.go: the life of the worker process.
use rdispatch.Common.{String, true, Option, none, some, List, [], ◌∷◌, ◌++◌, Run, done, ◌>>=◌}
use rdispatch.Common.Int.{pos}
use rdispatch.Common.Text.{concat}
use rdispatch.Common.Float.{Float64}
use rdispatch.Common.Json.{Result, ok, err}
use rdispatch.Common.Resources.{Effect, closed}
use rdispatch.Dlq.Memory.{new_memory}
use rdispatch.Nats.Client.{Library, connect}
use rdispatch.Health.Checker.{Checker, new, set_ready}
use rdispatch.Delivery.Channels.{Network, Std}
use rdispatch.Delivery.Worker.{Worker, Handled, Round, Progress, returned, running, run}
use rdispatch.Observability.Logger.{Zap, must_logger}
use rdispatch.Startup.Registry.{WorkerConfig, registered}

-- How the process stands: still in `worker.Run`, or returned with an error or nil.
pub data Exit : Type 0 where
  still_running : Exit
  exits : Option String → Exit

abbrev pub worker_service : String
worker_service = "delivery-worker"

module _ (fl : Float64) {Conn Js : Type 0} (lib : Library Conn Js) (std : Std) (net : Network) where
  -- What the process meets: the configuration that `config.Load` gives, how the creation of the consumer
  -- ends, the rounds of the loop, and what `ctx.Err()` says after `worker.Run`.
  pub record Setting : Type 0 where
    pub loaded : Result WorkerConfig
    pub consumer_err : Option String
    pub rounds : List (Round fl)
    pub context_err : Option String

  -- A process that has come to `worker.Run`.
  pub record Started : Type 0 where
    pub effects : List (Effect Conn)
    pub exit : Exit
    pub handled : List (Handled fl)
    pub worker : Worker fl
    pub checker : Checker

  pub data Life : Type 0 where
    fails : List (Effect Conn) → String → Life
    starts : Started → Life

  -- `if runErr := worker.Run(ctx); runErr != nil && ctx.Err() == nil`; `Run` never returns nil.
  unfoldable pub exit_of : Option String → Progress fl → Exit
  exit_of context_err running = still_running
  exit_of none (returned e) = exits (some (concat ("worker: " ∷ e ∷ [])))
  exit_of (some c) (returned e) = exits none

  -- `defer natsConn.Close()`.
  unfoldable pub deferred : Conn → Progress fl → List (Effect Conn)
  deferred conn running = []
  deferred conn (returned e) = closed conn ∷ []

  -- What follows the connection.
  unfoldable pub with_connection :
      Setting → WorkerConfig → List (Effect Conn) × Result (Conn × Js) → Run Life
  with_connection s cfg (effects, err e) =
      done (fails effects (concat ("connecting to NATS: " ∷ e ∷ [])))
  with_connection s cfg (effects, ok (conn, js)) = new_memory (pos 10000) >>= λ dlq.
      run fl std.codec s.consumer_err s.rounds
        (record { channels = registered std net cfg; dlq = dlq })
      >>= λ (p, hs, w). done (
          starts (record {
            effects = effects ++ deferred conn p;
            exit = exit_of s.context_err p;
            handled = hs;
            worker = w;
            checker = set_ready true new;
          }))

  -- An invalid level of the log is a panic.
  unfoldable pub with_config :
      {Level Logger : Type 0} → Zap Level Logger → Setting → Result WorkerConfig → Run Life
  with_config zap s (err e) = done (fails [] (concat ("loading config: " ∷ e ∷ [])))
  with_config zap s (ok cfg) =
      must_logger zap worker_service cfg.log_level cfg.development >>= λ logger.
      with_connection s cfg (connect lib cfg.nats)

  unfoldable pub worker_process : {Level Logger : Type 0} → Zap Level Logger → Setting → Run Life
  worker_process zap s = with_config zap s s.loaded
