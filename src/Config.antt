-- ===== src/Config.antt =====
-- pkg/config/config.go: the keys of a configuration struct, and `Load`.
pub mod Keys
pub mod KeysLaws
pub mod LoadLaws
