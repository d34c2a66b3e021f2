-- ===== src/Bridge.antt =====
-- services/scim-bridge/internal/bridge
pub mod Profile
pub mod Scope
pub mod Patch
pub mod Planner
pub mod Executor
pub mod Poller
pub mod Backfill
pub mod App
