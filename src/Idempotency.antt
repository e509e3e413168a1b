-- ===== src/Idempotency.antt =====
-- Idempotency keys: backend/src/lawyer_agent/application/idempotency.py and its repository,
-- infrastructure/persistence/repositories/idempotency.py.
pub mod Types
pub mod Slots
pub mod Table
pub mod Repository
pub mod Payload
pub mod Canonical
pub mod Routes
pub mod Service
pub mod Keys
pub mod Sound
pub mod Decoding
pub mod Acquiring
pub mod Outcomes
pub mod Reserving
pub mod Settling
pub mod Views
pub mod Claimed
pub mod Refinement
pub mod Invariant
pub mod Guarantees
pub mod Firsts
pub mod Once
pub mod Held
pub mod Recovery
pub mod Secrets
