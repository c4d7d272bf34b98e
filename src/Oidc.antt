-- ===== src/Oidc.antt =====
-- oidc.go: the OpenID Connect endpoints, one module for each handler.
pub mod AuthRequest
pub mod Auth
pub mod Pkce
pub mod Approve
pub mod Token
pub mod Endpoints
