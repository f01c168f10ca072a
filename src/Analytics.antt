-- ===== src/Analytics.antt =====
-- internal/analytics/analytics.go: delivery statistics by channel.
pub mod Stats
pub mod Handler
pub mod Counts
pub mod SnapshotLaws
pub mod HandlerLaws
