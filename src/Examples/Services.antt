-- ===== src/Examples/Services.antt =====
-- The probes' server, the tracer and the migrations at work.
use rdispatch.Common.{
  suc, false, ℕ, String, ◌≡◌, and_then, refl, none, some, true, [], ◌∷◌, List, All,
}
use rdispatch.Common.Json.{ok, err}
use rdispatch.Health.Serving.{
  Action, cancels, listens, accepts, shuts_down, notices, State, serving, waiting, draining,
  returned, start, act_all, act, listen, accept, return_with, result,
}
use rdispatch.Health.Reports.{Reported, act_all-Sound}
use rdispatch.Health.Returns.{Own, NilWith, act_all-returns}
use rdispatch.Observability.Tracing.{Globals, Otel}
use rdispatch.Postgres.Migrate.{Goose, migrate}
use rdispatch.Postgres.MigrateLaws.{Ends, migrate-Ends}

-- The server listens, takes a request, and the context ends.
abbrev evening_run : List Action
evening_run = listens none ∷ accepts none ∷ cancels ∷ []

abbrev evening_state : State
evening_state = record {
  context_done = true;
  in_shutdown = false;
  phase = serving;
  helper = waiting;
  in_flight = 1;
}

evening_runs : act_all evening_run start ≡ some evening_state
unfolding act_all act and_then listen accept start
evening_runs = refl

-- It is shut down and returns, with the request still being answered.
abbrev closed_state : State
closed_state = record {
  context_done = true;
  in_shutdown = true;
  phase = returned none;
  helper = draining;
  in_flight = 1;
}

closed_runs :
    act_all (listens none ∷ accepts none ∷ cancels ∷ shuts_down ∷ notices ∷ []) start
    ≡ some closed_state
unfolding act_all act and_then listen accept start return_with result
closed_runs = refl

act_all-Sound_example :
    (closed_state.phase ≡ returned none
      → (closed_state.context_done ≡ true) × (closed_state.in_shutdown ≡ true))
    × ((e : String)
        → closed_state.phase ≡ returned (some e)
        → Reported e (listens none ∷ accepts none ∷ cancels ∷ shuts_down ∷ notices ∷ []))
act_all-Sound_example =
    act_all-Sound (listens none ∷ accepts none ∷ cancels ∷ shuts_down ∷ notices ∷ []) closed_state
      closed_runs

act_all-returns_example :
    (own : List Action) × All Own own
    × ((t : State) × (act_all own evening_state ≡ some t) × NilWith 1 t)
act_all-returns_example = act_all-returns evening_run evening_state evening_runs refl tt

-- A collector that is there, and no resource.
abbrev otel : Otel String String String
otel = record {
  new_exporter = λ endpoint. ok endpoint;
  new_resource = λ service. err "no attributes";
  new_provider = λ exporter res. exporter;
}

abbrev no_provider : Globals String
no_provider = record { provider = none; trace_context = false }

-- A schema with one version more after a migration.
abbrev goose : Goose ℕ ℕ
goose = record {
  open_db = λ driver dsn. ok 1;
  set_dialect = λ dialect. none;
  up = λ db dir schema. (suc schema, none);
}

migrate-Ends_example :
    Ends goose "postgres://localhost" "migrations" 3
      (migrate goose "postgres://localhost" "migrations" 3)
migrate-Ends_example = migrate-Ends goose "postgres://localhost" "migrations" 3
