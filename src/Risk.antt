-- ===== src/Risk.antt =====
-- The circuit breakers and the risk state of an owner (apps/agent/src/risk).
pub mod Breakers
pub mod Status
pub mod Escalation
