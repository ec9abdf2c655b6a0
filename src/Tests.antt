-- ===== src/Tests.antt =====
-- Runs of the model at concrete inputs.
pub mod Setup
pub mod Gateway
pub mod Sound
pub mod Reuse
pub mod Stolen
pub mod Grants
pub mod Platform
pub mod Maintenance
pub mod Redirects
pub mod ClientMetadata
pub mod Authorize
pub mod Register
pub mod UserInfo
pub mod Analytics
pub mod Client
pub mod Reporting
