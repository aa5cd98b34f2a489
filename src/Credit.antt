-- ===== src/Credit.antt =====
-- The managed-credit gateway (apps/agent/src/llm-gateway).
pub mod Types
pub mod Meter
pub mod Bounds
pub mod Db
pub mod Ledger
pub mod Reservation
pub mod Request
pub mod Calls
pub mod Moves
pub mod Rules
pub mod Refine
pub mod Committed
pub mod Books
pub mod Settled
pub mod Effects
pub mod Retries
pub mod Gateway
pub mod Embedding
pub mod Completion
pub mod EmbeddingBooks
pub mod QuoteRefused
pub mod Replay
