-- ===== src/Trigger.antt =====
-- triggers: the market conditions, the review plans, and what an event of the market sets off.
pub mod Conditions
pub mod Review
pub mod Rails
pub mod Evaluate
pub mod Fires
pub mod Plans
