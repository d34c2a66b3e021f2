-- ===== src/Installer/Admin.antt =====
-- MAS's administration interface: the client of tools/mas-iam-installer/internal/masadmin.
pub mod Types
pub mod Client
pub mod Session
pub mod Providers
pub mod Recovery
