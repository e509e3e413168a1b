-- ===== src/AiJobs.antt =====
-- The domain of the durable AI jobs: backend/src/lawyer_agent/domain/ai_jobs.py and the grant policy
-- of backend/src/lawyer_agent/application/ai_jobs.py.
pub mod Status
pub mod Lifecycle
pub mod Timing
pub mod Scope
pub mod Scopes
pub mod Records
pub mod Requests
pub mod Validity
pub mod Policy
pub mod Grants
