-- ===== src/Authz.antt =====
-- The authorization policy of identity and tenancy: backend/src/lawyer_agent/domain/authorization.py,
-- with `TenantContext` of backend/src/lawyer_agent/domain/tenancy.py. A frozenset is the list of its
-- members; what the type checker of the source rules out (`isinstance` tests) has no value here.
pub mod Request
pub mod Reasons
pub mod Policy
pub mod Permits
pub mod Decisions
