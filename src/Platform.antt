-- ===== src/Platform.antt =====
-- server/okk_mcp/platform_client.py: the gateway's client of a user's OKK account. A call of OKK is
-- a request that joins `sent`, and the host's answer to it.
pub mod Account
pub mod Rotation
pub mod Context
pub mod Reads
