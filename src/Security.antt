-- ===== src/Security.antt =====
-- server/okk_mcp/security.py: scopes, PKCE and redirect addresses.
pub mod Scopes
pub mod Pkce
pub mod Redirects
