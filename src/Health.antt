-- ===== src/Health.antt =====
-- pkg/health/health.go: the readiness flag and the two probes.
pub mod Checker
pub mod Probes
pub mod Serving
pub mod ServingLaws
pub mod Reports
pub mod Returns
