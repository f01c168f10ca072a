-- ===== src/Nats.antt =====
-- pkg/natsutil/natsutil.go: the connection to NATS and the stream.
pub mod Client
pub mod ClientLaws
