-- ===== src/Observability/Tracing.antt =====
-- pkg/observability/tracing.go: `InitTracer`, with the OpenTelemetry libraries as a parameter.
use rdispatch.Common.{String, Option, some, List, [], ◌∷◌, str_eq, if◌then◌else◌, Bool, true}
use rdispatch.Common.Text.{concat}
use rdispatch.Common.Json.{Result, ok, err}
use rdispatch.Common.Resources.{Effect, opened}

-- The process-wide settings of package otel.
pub record Globals (Provider : Type 0) : Type 0 where
  pub provider : Option Provider
  pub trace_context : Bool  -- the propagator is `propagation.TraceContext{}`

-- `otlptracegrpc.New` for an endpoint, `resource.New` for a service name, and `NewTracerProvider`.
pub record Otel (Exporter Resource Provider : Type 0) : Type 0 where
  pub new_exporter : String → Result Exporter
  pub new_resource : String → Result Resource
  pub new_provider : Exporter → Resource → Provider

-- The function that is returned: one that does nothing, or `tp.Shutdown`.
pub data Shutdown (Provider : Type 0) : Type 0 where
  nothing_to_do : Shutdown Provider
  shuts_down : Provider → Shutdown Provider

-- What a call does: the exporters that it opens and closes, the settings, and what it returns.
pub record Traced (Exporter Provider : Type 0) : Type 0 where
  pub effects : List (Effect Exporter)
  pub globals : Globals Provider
  pub result : Result (Shutdown Provider)

module _ {Exporter Resource Provider : Type 0} (otel : Otel Exporter Resource Provider) where
  unfoldable pub with_resource :
      Globals Provider → Exporter → Result Resource → Traced Exporter Provider
  with_resource g exporter (ok res) =
      let tp = otel.new_provider exporter res in
      record {
        effects = opened exporter ∷ [];
        globals = record { provider = some tp; trace_context = true };
        result = ok (shuts_down tp);
      }
  with_resource g exporter (err e) = record {
    effects = opened exporter ∷ [];
    globals = g;
    result = err (concat ("creating resource: " ∷ e ∷ []));
  }

  unfoldable pub with_exporter :
      Globals Provider → String → Result Exporter → Traced Exporter Provider
  with_exporter g service (ok exporter) = with_resource g exporter (otel.new_resource service)
  with_exporter g service (err e) = record {
    effects = [];
    globals = g;
    result = err (concat ("creating OTLP exporter: " ∷ e ∷ []));
  }

  -- `InitTracer`.
  unfoldable pub init_tracer : Globals Provider → String → String → Traced Exporter Provider
  init_tracer g service endpoint =
      if str_eq endpoint ""
      then record { effects = []; globals = g; result = ok nothing_to_do }
      else with_exporter g service (otel.new_exporter endpoint)

-- `Tracer`: `otel.Tracer` asks the provider that is set, if one is.
unfoldable pub tracer :
    {Provider Spans : Type 0}
    → (Option Provider → String → Spans)
    → Globals Provider
    → String
    → Spans
tracer otel_tracer g name = otel_tracer g.provider name
