-- ===== src/Oauth.antt =====
-- server/okk_mcp/oauth.py: the OAuth 2.1 authorization server.
pub mod Types
pub mod Consent
pub mod Authorize
pub mod Register
pub mod Store
pub mod Invariant
pub mod CodeGrant
pub mod RefreshGrant
pub mod Token
pub mod UserInfo
