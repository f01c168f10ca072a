-- ===== src/System.antt =====
-- The gateway of cmd/gateway-api, the stream and the worker of cmd/delivery-worker, composed.
pub mod Stream
pub mod Steps
mod Bags
pub mod Balance
mod StepLaws
pub mod Conserved
pub mod Arrived
pub mod Settling
