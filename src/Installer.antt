-- ===== src/Installer.antt =====
-- tools/mas-iam-installer: the values of an installation, the checks before it, and MAS's
-- administration interface.
pub mod Settings
pub mod Components
pub mod Environment
pub mod Validate
pub mod Target
pub mod Secret
pub mod Storage
pub mod Cluster
pub mod Preflight
pub mod Admin
pub mod Auth
