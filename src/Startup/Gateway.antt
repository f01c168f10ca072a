-- ===== src/Startup/Gateway.antt =====
-- `run` of cmd/gateway-api/main.go: the life of the gateway process.
use rdispatch.Common.{
  String, true, false, Option, none, some, List, [], ◌∷◌, ◌++◌, Run, done, ◌>>=◌,
}
use rdispatch.Common.Int.{pos}
use rdispatch.Common.Text.{concat}
use rdispatch.Common.Json.{Result, ok, err}
use rdispatch.Common.Resources.{Effect, closed}
use rdispatch.Nats.Client.{StreamConfig, Library, connect, ensure_stream}
use rdispatch.Priority.Queue.{new as new_queue}
use rdispatch.Gateway.Rest.{Server}
use rdispatch.Health.Checker.{Checker, new, set_ready}
use rdispatch.Observability.Logger.{Zap, must_logger}
use rdispatch.Startup.Registry.{GatewayConfig}

-- The stream that the gateway ensures. A `MaxAge` that is not given is zero.
abbrev pub herald : StreamConfig
herald = record { name = "HERALD"; subjects = "rdispatch.>" ∷ []; max_age = pos 0 }

abbrev pub gateway_service : String
gateway_service = "gateway-api"

module _ {Conn Js : Type 0} (lib : Library Conn Js) where
  -- A gateway that serves until its context ends: the server, the effects and the checker at its start,
  -- and the effects and the checker when `run` has returned nil.
  pub record Served : Type 0 where
    pub server : Server
    pub effects : List (Effect Conn)
    pub checker : Checker
    pub final_effects : List (Effect Conn)
    pub final_checker : Checker

  pub data GatewayLife : Type 0 where
    fails : List (Effect Conn) → String → GatewayLife
    serves : Served → GatewayLife

  -- What follows the stream; the connection is closed by `defer`.
  unfoldable pub with_stream : List (Effect Conn) → Conn → Option String → GatewayLife
  with_stream effects conn (some e) =
      fails (effects ++ closed conn ∷ []) (concat ("ensuring NATS stream: " ∷ e ∷ []))
  with_stream effects conn none =
      let ready = set_ready true new in
      serves (record {
        server = record { queue = new_queue };
        effects = effects;
        checker = ready;
        final_effects = effects ++ closed conn ∷ [];
        final_checker = set_ready false ready;
      })

  unfoldable pub gateway_connected : List (Effect Conn) × Result (Conn × Js) → GatewayLife
  gateway_connected (effects, err e) = fails effects (concat ("connecting to NATS: " ∷ e ∷ []))
  gateway_connected (effects, ok (conn, js)) =
      with_stream effects conn (ensure_stream lib js herald)

  -- `run`, with what `config.Load` gives. An invalid level of the log is a panic.
  unfoldable pub gateway_process :
      {Level Logger : Type 0} → Zap Level Logger → Result GatewayConfig → Run GatewayLife
  gateway_process zap (err e) = done (fails [] (concat ("loading config: " ∷ e ∷ [])))
  gateway_process zap (ok cfg) =
      must_logger zap gateway_service cfg.log_level cfg.development >>= λ logger.
      done (gateway_connected (connect lib cfg.nats))
