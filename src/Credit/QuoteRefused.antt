-- ===== src/Credit/QuoteRefused.antt =====
-- What a `quote` says of the `complete` that follows (llm-gateway/index.ts).
use mathlib.Core.Path.{subst}
use arivion.Prelude.{
  ◌≤◌, sym, String, ◌≡◌, ◌≢◌, refl, ap, ◌∙◌, true, false, Option, none, some, arith, eq_iff, str_eq,
  ltb, Bool-cases, inl, inr,
}
use arivion.Credit.Types.{PriceRow, CompleteRequest, cost_cap_exceeded}
use arivion.Credit.Db.{AccountRow, Db, ok, err}
use arivion.Credit.Ledger.{ensure_account}
use arivion.Credit.Gateway.{
  GatewayConfig, ProviderOutcome, is_allowlisted, is_managed, find_usage, request_error,
  complete_managed, complete_new, complete, step_cap_micro, max_output_of, estimate_of,
}
use arivion.Credit.Embedding.{Quote, quote, quote_at}

allowlisted_of_quote :
    (config : GatewayConfig) (price : Option PriceRow) (req : CompleteRequest) (q : Quote)
    → quote config price req ≡ ok q
    → (is_allowlisted req.provider ≡ true) × (quote_at config req price ≡ q)
unfolding quote
allowlisted_of_quote config price req q h = elim (Bool-cases (is_allowlisted req.provider)) [
  | inr bad ↦ cc (rw bad at h)
  | inl good ↦ (good, cc (rw good at h))
]

-- An estimate as high as one over the cap is over the cap.
over_cap :
    (config : GatewayConfig) (price : Option PriceRow) (later : PriceRow) (req : CompleteRequest)
    → (quote_at config req price).within_step_cap ≡ false
    → (quote_at config req price).estimated_cost_micro_usd
      ≤ estimate_of req (max_output_of config req) (some later)
    → ltb
        (step_cap_micro config req.max_cost_micro_usd)
        (estimate_of req (max_output_of config req) (some later))
      ≡ true
over_cap config none later req h le = cc
over_cap config (some p) later req h le = ground arith

request_error-none :
    (config : GatewayConfig) (req : CompleteRequest)
    → req.idempotency_key ≢ ""
    → is_allowlisted req.provider ≡ true
    → is_managed req.provider_mode ≡ true
    → request_error config req ≡ none
unfolding request_error
request_error-none config req key good managed = elim (Bool-cases (str_eq req.idempotency_key "")) [
  | inl e ↦ absurd (key ((eq_iff req.idempotency_key "").0 e))
  | inr e ↦ rw (e, good, managed) refl
]

-- If the quote of a managed request says that it is not within the cap of a step, then `complete` of
-- the request with a new, non-empty key calls no provider, holds nothing and refuses with the error
-- for the cap; all that it does is to open the account. Conditions: the account can be opened, and the
-- model still has an active price, at which the estimate is no lower than the quoted one.
pub quote_refused :
    (config : GatewayConfig) (price : Option PriceRow) (later : PriceRow) (uuid : String)
    (outcome : ProviderOutcome) (req : CompleteRequest) (db db' : Db) (q : Quote) (a : AccountRow)
    → quote config price req ≡ ok q
    → q.within_step_cap ≡ false
    → q.estimated_cost_micro_usd ≤ estimate_of req (max_output_of config req) (some later)
    → is_managed req.provider_mode ≡ true
    → req.idempotency_key ≢ ""
    → find_usage req.owner_id req.idempotency_key db.usage_events ≡ none
    → ensure_account config.grant_config req.owner_id db ≡ (ok a, db')
    → complete config (some later) uuid outcome req db ≡ (err cost_cap_exceeded, db')
unfolding complete complete_new complete_managed
quote_refused config price later uuid outcome req db db' q a quoted over risen managed key new
      opened =
    let (good, at) = allowlisted_of_quote config price req q quoted in
    let capped = over_cap config price later req (ap (λ q. q.within_step_cap) at ∙ over) (
      subst
        (λ q. q.estimated_cost_micro_usd ≤ estimate_of req (max_output_of config req) (some later))
        (sym at) risen) in
    rw (request_error-none config req key good managed, complete)
      (rw (new, complete_new) (rw managed (rw (opened, complete_managed) (rw capped refl))))
