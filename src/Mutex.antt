-- ===== src/Mutex.antt =====
-- sync.Mutex: goroutines whose calls hold one lock, one access to memory at a time.
pub mod Program
pub mod Threads
pub mod Invariant
pub mod Linear
pub mod Served
