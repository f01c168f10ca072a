-- ===== src/Retry.antt =====
-- pkg/retry/retry.go: calls repeated with exponential backoff and jitter.
pub mod Config
pub mod Loop
pub mod Options
pub mod Outcome
pub mod Delays
pub mod Waits
