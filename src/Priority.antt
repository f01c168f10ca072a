-- ===== src/Priority.antt =====
-- internal/gateway/priority/queue.go: the priority queue of the gateway.
pub mod Level
pub mod Item
pub mod Queue
pub mod Order
pub mod Up
pub mod Down
pub mod Push
pub mod Pop
pub mod History
pub mod Emptying
pub mod Ties
pub mod Reference
pub mod Agreement
pub mod Bag
pub mod Locked
pub mod Wait
pub mod WaitLaws
pub mod Wake
pub mod LevelLaws
