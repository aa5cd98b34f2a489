-- ===== src/Examples.antt =====
-- Each theorem with hypotheses or parameters, applied to a run of the program.
mod Fixed
mod Credit
mod Gateway
mod Exit
mod Guard
mod Risk
mod Run
mod Position
mod Trigger
mod Backoff
mod Coverage
mod Backfill
mod Prices
