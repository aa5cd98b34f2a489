-- ===== src/Coverage.antt =====
-- The coverage of market data: lib/interval.ts, lib/gapScanner.ts and index.ts of apps/api/src.
pub mod Interval
pub mod Scan
pub mod Ranges
pub mod RoundTrip
pub mod Buckets
pub mod Windows
pub mod Gate
pub mod Counts
pub mod Full
