-- ===== src/Observability/TracingLaws.antt =====
-- How `InitTracer` ends, and what it leaves behind.
use rdispatch.Common.{String, ◌≡◌, refl, true, some, [], ◌∷◌, str_eq, Bool-cases, inl, inr}
use rdispatch.Common.Text.{concat}
use rdispatch.Common.Json.{Result, ok, err}
use rdispatch.Common.Resources.{opened}
use rdispatch.Observability.Tracing.{
  Globals, Otel, nothing_to_do, shuts_down, Traced, with_resource, with_exporter, init_tracer,
}

module _ {Exporter Resource Provider : Type 0} (otel : Otel Exporter Resource Provider)
    (g : Globals Provider) (service endpoint : String) where
  -- The four ways through `InitTracer`.
  pub data Ends (t : Traced Exporter Provider) : Type 0 where
    disabled :
        str_eq endpoint "" ≡ true
        → t.effects ≡ []
        → t.globals ≡ g
        → t.result ≡ ok nothing_to_do
        → Ends t
    unreachable :
        (e : String)
        → otel.new_exporter endpoint ≡ err e
        → t.effects ≡ []
        → t.globals ≡ g
        → t.result ≡ err (concat ("creating OTLP exporter: " ∷ e ∷ []))
        → Ends t
    leaks :
        (exporter : Exporter) (e : String)
        → otel.new_exporter endpoint ≡ ok exporter
        → otel.new_resource service ≡ err e
        → t.effects ≡ opened exporter ∷ []
        → t.globals ≡ g
        → t.result ≡ err (concat ("creating resource: " ∷ e ∷ []))
        → Ends t
    enabled :
        (exporter : Exporter) (res : Resource)
        → otel.new_exporter endpoint ≡ ok exporter
        → otel.new_resource service ≡ ok res
        → t.effects ≡ opened exporter ∷ []
        → t.globals.provider ≡ some (otel.new_provider exporter res)
        → t.globals.trace_context ≡ true
        → t.result ≡ ok (shuts_down (otel.new_provider exporter res))
        → Ends t

  with_resource-Ends :
      (exporter : Exporter) (r : Result Resource)
      → otel.new_exporter endpoint ≡ ok exporter
      → otel.new_resource service ≡ r
      → Ends (with_resource otel g exporter r)
  unfolding with_resource
  with_resource-Ends exporter (ok res) x y = enabled exporter res x y refl refl refl refl
  with_resource-Ends exporter (err e) x y = leaks exporter e x y refl refl refl

  with_exporter-Ends :
      (r : Result Exporter) → otel.new_exporter endpoint ≡ r → Ends (with_exporter otel g service r)
  unfolding with_exporter
  with_exporter-Ends (ok exporter) x =
      with_resource-Ends exporter (otel.new_resource service) x refl
  with_exporter-Ends (err e) x = unreachable e x refl refl refl

  -- Without an endpoint `InitTracer` changes nothing and returns a function that does nothing. With one it
  -- sets the provider and the propagator of the process and returns the provider's `Shutdown`, unless the
  -- exporter or the resource fails; then the settings stay. If the resource fails, the exporter that was
  -- opened is not closed.
  pub init_tracer-Ends : Ends (init_tracer otel g service endpoint)
  unfolding init_tracer
  init_tracer-Ends = elim (Bool-cases (str_eq endpoint "")) [
    | inl e ↦ rw e (disabled e refl refl refl)
    | inr e ↦ rw e (with_exporter-Ends (otel.new_exporter endpoint) refl)
  ]
