-- ===== src/Mas.antt =====
-- services/scim-bridge/internal/mas
pub mod Payload
pub mod Api
pub mod Retry
pub mod Client
