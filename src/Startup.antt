-- ===== src/Startup.antt =====
-- run of cmd/delivery-worker/main.go and of cmd/gateway-api/main.go, and the defaults of
-- internal/gateway/config.go.
pub mod Registry
pub mod RegistryLaws
pub mod Logging
pub mod Process
pub mod ProcessLaws
pub mod Gateway
pub mod GatewayLaws
pub mod Shutdown
pub mod ShutdownLaws
pub mod Unserved
pub mod Main
