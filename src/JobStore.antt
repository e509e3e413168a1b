-- ===== src/JobStore.antt =====
-- The SQL store of the AI jobs:
-- backend/src/lawyer_agent/infrastructure/persistence/repositories/ai_jobs.py, on the tables of
-- backend/src/lawyer_agent/infrastructure/persistence/models/ai_jobs.py.
pub mod Tables
pub mod Lookup
pub mod Rows
pub mod Claiming
pub mod Jobs
pub mod Ops
pub mod Steps
pub mod Commits
pub mod History
pub mod Fencing
pub mod Messages
pub mod Outbox
pub mod Inbox
pub mod Exclusion
pub mod Settlements
pub mod Holding
pub mod Settling
pub mod Superseding
pub mod Publishing
pub mod Turns
pub mod Batches
