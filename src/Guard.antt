-- ===== src/Guard.antt =====
-- The guardrails that a plan passes before any step runs (apps/agent/src/guardrails).
pub mod Plan
pub mod Tools
pub mod Playbooks
pub mod Validate
pub mod Steps
pub mod Safety
