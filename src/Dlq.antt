-- ===== src/Dlq.antt =====
-- pkg/dlq/dlq.go: the bounded in-memory dead letter queue.
pub mod Memory
pub mod Slices
pub mod Window
pub mod Capacity
