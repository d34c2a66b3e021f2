-- ===== src/Tests.antt =====
-- Runs of the model and its theorems at concrete data.
pub mod Fixtures
mod Sync
mod Directory
mod Requests
mod Disk
mod Credentials
mod Installer
mod Preflight
mod Auth
