-- ===== src/Evidence.antt =====
-- Which legal conclusions may be shown: backend/src/lawyer_agent/application/evidence.py and
-- backend/src/lawyer_agent/application/legal_claim_gate.py. A date is the number of its day.
pub mod Citations
pub mod Claims
pub mod Support
pub mod Publication
