-- ===== src/Startup/GatewayLaws.antt =====
-- What holds of every life of the gateway process.
use rdispatch.Common.{
  suc, ◌*◌, ◌≡◌, refl, true, false, String, Option, none, some, List, [], ◌∷◌, ◌++◌, arith, Run,
  done, yields,
}
use rdispatch.Common.Int.{pos}
use rdispatch.Common.Json.{Result, ok, err}
use rdispatch.Common.Resources.{Effect, closed, opens, closes, opens-append, closes-append, Settled}
use rdispatch.Retry.Config.{second}
use rdispatch.Nats.Client.{
  connect, StreamSettings, Library, ensure_stream, stream_error, stream_settings,
}
use rdispatch.Nats.ClientLaws.{connect-Settled}
use rdispatch.Priority.Push.{IsValid}
use rdispatch.Priority.WaitLaws.{new-IsValid}
use rdispatch.Health.Checker.{set_ready}
use rdispatch.Observability.Logger.{Zap, new_logger, must_logger}
use rdispatch.Startup.Logging.{LoggedEnds, unconfigured, logged_ends}
use rdispatch.Startup.Registry.{GatewayConfig}
use rdispatch.Startup.Gateway.{
  Served, GatewayLife, fails, serves, with_stream, gateway_service, gateway_connected,
  gateway_process,
}

-- The stream as the server is asked for it: its messages are kept for a day.
abbrev pub herald_stream : StreamSettings
herald_stream = record {
  name = "HERALD";
  subjects = "rdispatch.>" ∷ [];
  max_age = pos (86400 * second);
}

module _ {Conn Js : Type 0} (lib : Library Conn Js) where
  -- The stream was created; the gateway was set ready with its connection open, and in the end set not
  -- ready with all connections closed.
  pub record IsServed (s : Served lib) : Type 0 where
    pub valid : IsValid s.server.queue
    pub ready : s.checker.ready ≡ true
    pub connected : opens s.effects ≡ suc (closes s.effects)
    pub stopped : s.final_checker.ready ≡ false
    pub tidy : opens s.final_effects ≡ closes s.final_effects
    pub stream : (js : Js) × (lib.create_stream js herald_stream ≡ none)

  abbrev pub IsEnded : GatewayLife lib → Type 0
  IsEnded (fails es e) = opens es ≡ closes es
  IsEnded (serves s) = IsServed s

  closed_after :
      (es : List (Effect Conn)) (conn : Conn)
      → opens es ≡ suc (closes es)
      → opens (es ++ closed conn ∷ []) ≡ closes (es ++ closed conn ∷ [])
  closed_after es conn h =
      omega (arith, opens-append es (closed conn ∷ []), closes-append es (closed conn ∷ []))

  with_stream-IsEnded :
      (es : List (Effect Conn)) (conn : Conn) (js : Js) (o : Option String)
      → opens es ≡ suc (closes es)
      → lib.create_stream js herald_stream ≡ o
      → IsEnded (with_stream lib es conn (stream_error lib "HERALD" o))
  unfolding with_stream stream_error set_ready
  with_stream-IsEnded es conn js (some e) h k = closed_after es conn h
  with_stream-IsEnded es conn js none h k = record {
    valid = new-IsValid;
    ready = refl;
    connected = h;
    stopped = refl;
    tidy = closed_after es conn h;
    stream = (js, k);
  }

  gateway_connected-IsEnded :
      (r : List (Effect Conn) × Result (Conn × Js))
      → Settled r.0 r.1
      → IsEnded (gateway_connected lib r)
  unfolding gateway_connected ensure_stream stream_settings
  gateway_connected-IsEnded (es, err e) h = h
  gateway_connected-IsEnded (es, ok (conn, js)) h = with_stream-IsEnded es conn js _ h refl

  module _ {Level Logger : Type 0} (zap : Zap Level Logger) (loaded : Result GatewayConfig) where
    abbrev pub GatewayEnds : Run (GatewayLife lib) → Type 0
    GatewayEnds =
        LoggedEnds zap gateway_service (λ cfg. cfg.log_level) (λ cfg. cfg.development) loaded
          IsEnded

    gateway_loaded-Ends :
        (r : Result GatewayConfig) → loaded ≡ r → GatewayEnds (gateway_process lib zap r)
    unfolding gateway_process must_logger
    gateway_loaded-Ends (err e) l = unconfigured e l refl
    gateway_loaded-Ends (ok cfg) l =
        logged_ends zap gateway_service (λ cfg. cfg.log_level) (λ cfg. cfg.development) loaded
          IsEnded (done (gateway_connected lib (connect lib cfg.nats))) cfg
          (new_logger zap gateway_service cfg.log_level cfg.development) l refl
          (yields (gateway_connected-IsEnded _ (connect-Settled lib cfg.nats)))

    -- The gateway process panics exactly if its configuration is loaded and its logger cannot be made.
    -- Otherwise it leaves no connection open, on whichever error it returns. If it comes to serve, a stream
    -- HERALD that keeps its messages for a day has been created, the queue is a heap, the gateway has been
    -- set ready and holds one connection, and when it has returned it has been set not ready and has closed
    -- that connection.
    pub gateway_process-Ends : GatewayEnds (gateway_process lib zap loaded)
    gateway_process-Ends = gateway_loaded-Ends loaded refl
