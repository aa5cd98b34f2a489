-- ===== src/Run.antt =====
-- The run of a typed plan, step by step (apps/agent/src/orchestrator/runner.ts).
pub mod Json
pub mod Honesty
pub mod Store
pub mod Runner
pub mod Calls
pub mod Cleared
pub mod Approvals
pub mod Resume
