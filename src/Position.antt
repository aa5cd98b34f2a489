-- ===== src/Position.antt =====
-- positions: the managed positions' table, their plans, their opening and their monitor.
pub mod Store
pub mod Plans
pub mod Exits
pub mod Monitor
pub mod Sweep
pub mod Steps
pub mod States
pub mod Race
pub mod Lifecycle
pub mod Ticks
pub mod Sweeps
pub mod Stops
pub mod Open
pub mod Entries
