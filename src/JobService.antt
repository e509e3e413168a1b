-- ===== src/JobService.antt =====
-- The HTTP-facing AI job service: backend/src/lawyer_agent/application/ai_job_service.py on the
-- repositories of infrastructure/persistence/repositories.
pub mod Roles
pub mod Permissions
pub mod Store
pub mod Authority
pub mod Commands
pub mod Graphs
pub mod Creating
pub mod Created
pub mod Replays
pub mod Reading
pub mod Submitted
pub mod Granted
