-- ===== src/Config.antt =====
-- services/scim-bridge/internal/config/config.go
pub mod Settings
pub mod Parse
pub mod Env
pub mod Validate
