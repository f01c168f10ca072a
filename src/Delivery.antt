-- ===== src/Delivery.antt =====
-- internal/delivery: the worker, which takes notifications from NATS and sends them out.
pub mod Notification
pub mod Channels
pub mod Worker
pub mod Letters
pub mod Consume
pub mod Interrupted
pub mod ChannelLaws
