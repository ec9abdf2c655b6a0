-- ===== src/Analytics.antt =====
-- server/okk_mcp/backend_client.py: the analytics adapter that the MCP tools read through.
pub mod Adapter
pub mod Journal
pub mod Texts
pub mod Departments
pub mod Supervisors
pub mod Envelope
pub mod Employees
pub mod Directory
pub mod Guarded
pub mod Scope
pub mod Selectors
pub mod Resolved
pub mod Rosters
pub mod Calls
pub mod Lookups
pub mod Transcripts
pub mod CallTranscript
pub mod EntityScope
pub mod Grounding
pub mod SupervisorTranscript
