-- ===== src/Gateway.antt =====
-- The gateway: internal/gateway/rest.go, and the drainer of cmd/gateway-api/main.go.
pub mod Rest
pub mod RestLaws
pub mod Delivered
pub mod Received
pub mod Drainer
pub mod DrainerLaws
pub mod Account
pub mod Loop
pub mod Router
pub mod RouterLaws
pub mod Session
pub mod Emptied
