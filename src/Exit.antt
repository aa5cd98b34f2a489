-- ===== src/Exit.antt =====
-- The exit policy of a managed position (apps/agent/src/positions/exitPolicy.ts).
pub mod Real
pub mod Policy
pub mod Evaluate
pub mod Ratchet
pub mod Tiers
