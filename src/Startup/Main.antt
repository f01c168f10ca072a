-- ===== src/Startup/Main.antt =====
-- `main` of cmd/gateway-api/main.go and of cmd/delivery-worker/main.go: how the processes exit.
use rdispatch.Common.{
  ℕ, String, ◌≡◌, ◌≢◌, refl, ap, Option, none, some, [], ◌∷◌, Run, done, panic, out_of_fuel,
}
use rdispatch.Common.Float.{Float64}
use rdispatch.Common.Text.{concat}
use rdispatch.Nats.Client.{Library}
use rdispatch.Delivery.Channels.{Network, Std}
use rdispatch.Observability.Logger.{Zap}
use rdispatch.Startup.Logging.{panics, logs, unconfigured}
use rdispatch.Startup.Gateway.{GatewayLife, gateway_service, fails as gateway_fails, serves}
use rdispatch.Startup.Process.{
  Exit, still_running, exits, Life, Setting, fails, starts, worker_service, worker_process,
}
use rdispatch.Startup.ProcessLaws.{failed, started, WorkerEnds, worker_process-Ends}

-- The exit code, and what `log.Fatalf` prints.
pub record Status : Type 0 where
  pub code : ℕ
  pub printed : Option String

-- What Go does at the end of a program, and at a panic that nobody recovers.
abbrev pub clean_status : Status
clean_status = record { code = 0; printed = none }

abbrev pub panic_status : Status
panic_status = record { code = 2; printed = none }

-- `if err := run(); err != nil { log.Fatalf("%s: %v", serviceName, err) }`.
unfoldable pub main_status : String → Option String → Status
main_status service none = clean_status
main_status service (some e) = record {
  code = 1;
  printed = some (concat (service ∷ ": " ∷ e ∷ []));
}

module _ {Conn Js : Type 0} (lib : Library Conn Js) where
  -- The exit of a gateway whose context ends.
  unfoldable pub gateway_main : Run (GatewayLife lib) → Option Status
  gateway_main (done (gateway_fails es e)) = some (main_status gateway_service (some e))
  gateway_main (done (serves s)) = some (main_status gateway_service none)
  gateway_main panic = some panic_status
  gateway_main out_of_fuel = none

module _ (fl : Float64) {Conn Js : Type 0} (lib : Library Conn Js) (std : Std) (net : Network) where
  -- A process that is still in `run` has not exited.
  unfoldable pub exit_status : Exit → Option Status
  exit_status still_running = none
  exit_status (exits e) = some (main_status worker_service e)

  unfoldable pub worker_main : Run (Life fl lib std net) → Option Status
  unfolding exit_status
  worker_main (done (fails es e)) = some (main_status worker_service (some e))
  worker_main (done (starts s)) = exit_status s.exit
  worker_main panic = some panic_status
  worker_main out_of_fuel = none

  -- The process has not come to `worker.Run`.
  abbrev pub IsUnstarted : Run (Life fl lib std net) → Type 0
  IsUnstarted (done (starts s)) = ⊥
  IsUnstarted _ = Unit

  exit_clean :
      (x : Exit) (st : Status)
      → ((e : String) → x ≢ exits (some e))
      → exit_status x ≡ some st
      → st ≡ clean_status
  unfolding exit_status main_status
  exit_clean still_running st h e = absurd cc
  exit_clean (exits none) st h e = cc
  exit_clean (exits (some x)) st h e = absurd (h x refl)

  module _ {Level Logger : Type 0} (zap : Zap Level Logger) (s : Setting fl lib std net) where
    ends_clean :
        (c : String) (r : Run (Life fl lib std net)) (st : Status)
        → s.context_err ≡ some c
        → WorkerEnds fl lib std net zap s r
        → worker_main r ≡ some st
        → st.code ≢ 0
        → IsUnstarted r
    unfolding worker_main
    ends_clean c r st h (panics cfg e l f) w n = tt
    ends_clean c r st h (unconfigured e l (failed p)) w n = tt
    ends_clean c r st h (logs cfg logger l f (failed p)) w n = tt
    ends_clean c r st h (unconfigured e l (started cfg k p)) w n =
        absurd (n (ap (λ x. x.code) (exit_clean _ st (λ x. p.clean c x h) w)))
    ends_clean c r st h (logs cfg logger l f (started cfg' k p)) w n =
        absurd (n (ap (λ x. x.code) (exit_clean _ st (λ x. p.clean c x h) w)))

    -- A worker process that is stopped by a signal exits with code 0, unless it has not come as far as
    -- `worker.Run`.
    pub worker_main_clean :
        (c : String) (st : Status)
        → s.context_err ≡ some c
        → worker_main (worker_process fl lib std net zap s) ≡ some st
        → st.code ≢ 0
        → IsUnstarted (worker_process fl lib std net zap s)
    worker_main_clean c st h w n =
        ends_clean c (worker_process fl lib std net zap s) st h
          (worker_process-Ends fl lib std net zap s) w n
