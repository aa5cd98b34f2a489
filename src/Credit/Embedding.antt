-- ===== src/Credit/Embedding.antt =====
-- llm-gateway/index.ts: `quote`, which only estimates, and `embedText`, which reserves, calls the
-- embedding provider and finalizes like `complete`. What the provider answers, the price row, the
-- call's key and the reservation's id are arguments.
use arivion.Prelude.{
  ℕ, max, String, pos, Bool, true, false, not, Option, none, some, ◌==◌, leb, if◌then◌else◌,
  string_length,
}
use arivion.Credit.Types.{
  managed, actual, NormalizedUsage, PriceRow, CompleteRequest, GatewayError,
  provider_not_allowlisted, no_active_price,
}
use arivion.Credit.Meter.{ceil_div, cost_for_usage}
use arivion.Credit.Db.{UsageEventRow, Db, Result, ok, err, and_then}
use arivion.Credit.Ledger.{ensure_account}
use arivion.Credit.Reservation.{reserve, finalize, release}
use arivion.Credit.Gateway.{
  GatewayConfig, is_allowlisted, step_cap_micro, max_output_of, estimate_of, record_usage,
}

pub record Quote : Type 0 where
  pub estimated_cost_micro_usd : ℕ
  pub max_output_tokens : ℕ
  pub priced : Bool
  pub within_step_cap : Bool

abbrev pub quote_at : GatewayConfig → CompleteRequest → Option PriceRow → Quote
quote_at config req none = record {
  estimated_cost_micro_usd = 0;
  max_output_tokens = max_output_of config req;
  priced = false;
  within_step_cap = true;
}
quote_at config req (some price) =
    let estimate = estimate_of req (max_output_of config req) (some price) in
    record {
      estimated_cost_micro_usd = estimate;
      max_output_tokens = max_output_of config req;
      priced = true;
      within_step_cap = leb estimate (step_cap_micro config req.max_cost_micro_usd);
    }

unfoldable pub quote : GatewayConfig → Option PriceRow → CompleteRequest → Result Quote
quote config price req =
    if not (is_allowlisted req.provider)
    then err provider_not_allowlisted
    else ok (quote_at config req price)

-- the request, with the configured provider and model where it names none
pub record EmbedRequest : Type 0 where
  pub owner_id : ℕ
  pub text : String
  pub provider : String
  pub model : String

-- `embedded n` reports `n` input tokens; what is not a `GatewayError` is thrown as `provider_error`.
pub data EmbedOutcome : Type 0 where
  embedded : ℕ → EmbedOutcome
  fails : GatewayError → EmbedOutcome

pub record EmbedResult : Type 0 where
  pub cost_micro_usd : ℕ
  pub input_tokens : ℕ

abbrev input_usage : ℕ → NormalizedUsage
input_usage tokens = record {
  input_tokens = tokens;
  cached_input_tokens = 0;
  output_tokens = 0;
  reasoning_tokens = 0;
  tool_call_count = 0;
}

abbrev embed_event : EmbedRequest → String → NormalizedUsage → ℕ → UsageEventRow
embed_event req key usage cost = record {
  owner_id = req.owner_id;
  idempotency_key = key;
  input_tokens = usage.input_tokens;
  cached_input_tokens = usage.cached_input_tokens;
  output_tokens = usage.output_tokens;
  reasoning_tokens = usage.reasoning_tokens;
  tool_call_count = usage.tool_call_count;
  provider_cost_micro_usd = cost;
  duality_credit_debit_micro_usd = cost;
  metering_quality = actual;
  status = "ok";
  provider = req.provider;
  model = req.model;
  provider_mode = managed;
}

-- the `catch`: release the hold, then throw
unfoldable pub release_and_throw : String → GatewayError → Db → Result EmbedResult × Db
release_and_throw id e db = and_then (release id "EMBED_ERROR" db) (λ _ db1. (err e, db1))

abbrev pub catch_embed : String → Result EmbedResult × Db → Result EmbedResult × Db
catch_embed id (ok result, db) = (ok result, db)
catch_embed id (err e, db) = release_and_throw id e db

-- `res.inputTokens || estTokens`
abbrev or_estimate : ℕ → ℕ → ℕ
or_estimate tokens estimate = if tokens == 0 then estimate else tokens

unfoldable pub embed_and_meter :
    EmbedRequest → String → PriceRow → ℕ → String → EmbedOutcome → Db → Result EmbedResult × Db
unfolding release_and_throw
embed_and_meter req key price estimate id (EmbedOutcome.fails e) db = release_and_throw id e db
embed_and_meter req key price estimate id (EmbedOutcome.embedded tokens) db =
    let usage = input_usage (or_estimate tokens estimate) in
    let cost = (cost_for_usage usage price).total_micro_usd in
    catch_embed id (
      and_then (finalize id (pos cost) db) (λ _ db1. (
        ok (record { cost_micro_usd = cost; input_tokens = usage.input_tokens }),
        record_usage (embed_event req key usage cost) db1,
      )))

abbrev estimate_text : String → ℕ
estimate_text text = max 1 (ceil_div (string_length text) 4)

unfoldable pub embed_priced :
    Option PriceRow
    → (key uuid : String) → EmbedOutcome
    → EmbedRequest
    → Db
    → Result EmbedResult × Db
unfolding embed_and_meter
embed_priced none key uuid outcome req db = (err no_active_price, db)
embed_priced (some price) key uuid outcome req db =
    let estimate = estimate_text req.text in
    let cost = (cost_for_usage (input_usage estimate) price).total_micro_usd in
    and_then
      (reserve uuid
        (record {
          owner_id = req.owner_id;
          idempotency_key = key;
          provider = req.provider;
          model = req.model;
          provider_mode = managed;
          reserved_micro_usd = pos (max 1 cost);
        })
        db)
      (λ r db1. embed_and_meter req key price estimate r.id outcome db1)

unfoldable pub embed_text :
    GatewayConfig
    → Option PriceRow
    → (key uuid : String) → EmbedOutcome
    → EmbedRequest
    → Db
    → Result EmbedResult × Db
unfolding embed_priced
embed_text config price key uuid outcome req db =
    if not (is_allowlisted req.provider)
    then (err provider_not_allowlisted, db)
    else and_then (ensure_account config.grant_config req.owner_id db)
        (λ _ db1. embed_priced price key uuid outcome req db1)
