-- ===== src/Keycloak.antt =====
-- services/scim-bridge/internal/keycloak/client.go
pub mod Users
pub mod Groups
pub mod Client
