-- ===== src/State.antt =====
-- The correlation store: services/scim-bridge/internal/state/store.go.
pub mod Entry
pub mod Api
pub mod Memory
pub mod File
pub mod Backend
