-- ===== src/Startup/ProcessLaws.antt =====
-- What holds of every life of the worker process.
use rdispatch.Common.{
  ℕ, suc, String, ◌≡◌, ◌≢◌, refl, true, Option, none, some, List, [], ◌∷◌, ◌++◌, Run, Yields,
  yields, Yields-then, Yields-weaken, arith, length,
}
use rdispatch.Common.Float.{Float64}
use rdispatch.Common.Json.{Result, ok, err, Codec}
use rdispatch.Common.Resources.{Effect, closed, opens, closes, opens-append, closes-append, Settled}
use rdispatch.Dlq.Window.{IsValid}
use rdispatch.Dlq.Capacity.{new_memory-IsValid}
use rdispatch.Nats.Client.{Library, connect}
use rdispatch.Nats.ClientLaws.{connect-Settled}
use rdispatch.Health.Checker.{set_ready}
use rdispatch.Delivery.Channels.{Network, Std}
use rdispatch.Delivery.Worker.{Surroundings, Worker, Round, Progress, returned, running, run}
use rdispatch.Delivery.Consume.{arrivals, total_acks, Consumed, run_loop-Consumed}
use rdispatch.Observability.Logger.{Zap, new_logger, must_logger}
use rdispatch.Startup.Logging.{LoggedEnds, unconfigured, logged_ends}
use rdispatch.Startup.Registry.{WorkerConfig, registered}
use rdispatch.Startup.Process.{
  Exit, still_running, exits, Setting, Started, Life, fails, starts, worker_service, exit_of,
  deferred, with_connection, with_config, worker_process,
}

-- While the process runs its connection is open; when it has returned all are closed.
abbrev pub IsTidy : {Conn : Type 0} → Exit → List (Effect Conn) → Type 0
IsTidy still_running es = opens es ≡ suc (closes es)
IsTidy (exits e) es = opens es ≡ closes es

module _ (fl : Float64) (codec : Codec) where
  -- The messages that the worker is given: none without a consumer.
  abbrev pub received : Option String → List (Round fl) → List (Surroundings fl.F × List ℕ)
  received (some e) rs = []
  received none rs = arrivals fl codec rs

  run-Consumed :
      (n : ℕ) (consumer_err : Option String) (rs : List (Round fl)) (w : Worker fl)
      → IsValid n w.dlq
      → Yields
          (λ (p, hs, after). Consumed fl codec n w (received consumer_err rs) hs after)
          (run fl codec consumer_err rs w)
  unfolding run
  run-Consumed n (some e) rs w v =
      yields (record { each = refl; acked = refl; channels = refl; valid = v })
  run-Consumed n none rs w v = Yields-weaken (run_loop-Consumed fl codec n rs w v) λ r (e, c). c

module _ (fl : Float64) {Conn Js : Type 0} (lib : Library Conn Js) (std : Std) (net : Network) where
  -- A process that has come to `worker.Run` with a configuration.
  pub record IsSound (s : Setting fl lib std net) (cfg : WorkerConfig) (st : Started fl lib std net)
      : Type 0 where
    pub tidy : IsTidy st.exit st.effects
    pub acked :
        total_acks fl std.codec st.handled ≡ length (received fl std.codec s.consumer_err s.rounds)
    pub channels : st.worker.channels ≡ registered std net cfg
    pub bounded : IsValid 10000 st.worker.dlq
    pub ready : st.checker.ready ≡ true
    pub clean : (c e : String) → s.context_err ≡ some c → st.exit ≢ exits (some e)

  pub data LifeEnds (s : Setting fl lib std net) : Life fl lib std net → Type 0 where
    failed : {es : List (Effect Conn)} {e : String} → opens es ≡ closes es → LifeEnds s (fails es e)
    started :
        {st : Started fl lib std net} (cfg : WorkerConfig)
        → s.loaded ≡ ok cfg
        → IsSound s cfg st
        → LifeEnds s (starts st)

  deferred-IsTidy :
      (conn : Conn) (context_err : Option String) (p : Progress fl) (es : List (Effect Conn))
      → opens es ≡ suc (closes es)
      → IsTidy (exit_of fl lib std net context_err p) (es ++ deferred fl lib std net conn p)
  unfolding exit_of deferred
  deferred-IsTidy conn context_err running es h =
      omega (arith, opens-append es [], closes-append es [])
  deferred-IsTidy conn none (returned e) es h =
      omega (arith, opens-append es (closed conn ∷ []), closes-append es (closed conn ∷ []))
  deferred-IsTidy conn (some c) (returned e) es h =
      omega (arith, opens-append es (closed conn ∷ []), closes-append es (closed conn ∷ []))

  exit_of_clean :
      (context_err : Option String) (p : Progress fl) (c e : String)
      → context_err ≡ some c
      → exit_of fl lib std net context_err p ≢ exits (some e)
  unfolding exit_of
  exit_of_clean context_err running c e h k = absurd cc
  exit_of_clean none (returned x) c e h k = absurd cc
  exit_of_clean (some d) (returned x) c e h k = absurd cc

  with_connection_ends :
      (s : Setting fl lib std net) (cfg : WorkerConfig)
      (r : List (Effect Conn) × Result (Conn × Js))
      → s.loaded ≡ ok cfg
      → Settled r.0 r.1
      → Yields (LifeEnds s) (with_connection fl lib std net s cfg r)
  unfolding with_connection set_ready
  with_connection_ends s cfg (es, err e) l h = yields (failed h)
  with_connection_ends s cfg (es, ok (conn, js)) l h =
      Yields-then (new_memory-IsValid 10000 (omega arith)) λ dlq v.
        Yields-then
          (run-Consumed fl std.codec 10000 s.consumer_err s.rounds
            (record { channels = registered std net cfg; dlq = dlq }) v)
          λ (p, hs, w) c. yields (
            started cfg l (record {
              tidy = deferred-IsTidy conn s.context_err p es h;
              acked = c.acked;
              channels = c.channels;
              bounded = c.valid;
              ready = refl;
              clean = λ x e. exit_of_clean s.context_err p x e;
            }))

  module _ {Level Logger : Type 0} (zap : Zap Level Logger) (s : Setting fl lib std net) where
    abbrev pub WorkerEnds : Run (Life fl lib std net) → Type 0
    WorkerEnds =
        LoggedEnds zap worker_service (λ cfg. cfg.log_level) (λ cfg. cfg.development) s.loaded
          (LifeEnds s)

    with_config-Ends :
        (r : Result WorkerConfig) → s.loaded ≡ r → WorkerEnds (with_config fl lib std net zap s r)
    unfolding with_config must_logger
    with_config-Ends (err e) l = unconfigured e l (failed refl)
    with_config-Ends (ok cfg) l =
        logged_ends zap worker_service (λ cfg. cfg.log_level) (λ cfg. cfg.development) s.loaded
          (LifeEnds s) (with_connection fl lib std net s cfg (connect lib cfg.nats)) cfg
          (new_logger zap worker_service cfg.log_level cfg.development) l refl
          (with_connection_ends s cfg (connect lib cfg.nats) l (connect-Settled lib cfg.nats))

    pub worker_process-Ends : WorkerEnds (worker_process fl lib std net zap s)
    unfolding worker_process
    worker_process-Ends = with_config-Ends s.loaded refl
