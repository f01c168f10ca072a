-- ===== src/Observability.antt =====
-- pkg/observability: the logger, the metrics and the tracer of a service.
pub mod Logger
pub mod Metrics
pub mod Tracing
pub mod TracingLaws
