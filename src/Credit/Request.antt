-- ===== src/Credit/Request.antt =====
-- The calls that move managed credit: the exported functions of llm-gateway/creditLedger.ts and
-- llm-gateway/reservation.ts, with their arguments.
use arivion.Prelude.{ℕ, String, ℤ}
use arivion.Credit.Reservation.{ReserveArgs}

pub data Call : Type 0 where
  ensure_account : ℕ → Call
  record_grant : ℕ → ℤ → String → String → Call
  reserve : String → ReserveArgs → Call
  finalize : String → ℤ → Call
  release : String → String → Call
