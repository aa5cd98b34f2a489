-- ===== src/Credit/Types.antt =====
-- llm-gateway/types.ts: the shared types of the gateway, and its error codes.
-- Token counts and micro-USD amounts are whole and not negative, so they are naturals.
use arivion.Prelude.{ℕ, String, Option, List}

pub data ProviderMode : Type 0 where
  managed byok : ProviderMode

pub data MeteringQuality : Type 0 where
  actual estimated unknown : MeteringQuality

pub data Role : Type 0 where
  system user assistant tool : Role

pub record ChatMessage : Type 0 where
  pub role : Role
  pub content : String

pub record NormalizedUsage : Type 0 where
  pub input_tokens : ℕ
  pub cached_input_tokens : ℕ
  pub output_tokens : ℕ
  pub reasoning_tokens : ℕ
  pub tool_call_count : ℕ

pub record PriceRow : Type 0 where
  pub provider : String
  pub model : String
  pub input_micro_usd_per_mtoken : ℕ
  pub cached_input_micro_usd_per_mtoken : Option ℕ
  pub output_micro_usd_per_mtoken : ℕ
  pub reasoning_micro_usd_per_mtoken : Option ℕ

pub record CostBreakdown : Type 0 where
  pub input_micro_usd : ℕ
  pub cached_input_micro_usd : ℕ
  pub output_micro_usd : ℕ
  pub reasoning_micro_usd : ℕ
  pub total_micro_usd : ℕ

pub record CompleteRequest : Type 0 where
  pub owner_id : ℕ
  pub provider_mode : ProviderMode
  pub provider : String
  pub model : String
  pub messages : List ChatMessage
  pub max_tokens : Option ℕ
  -- `maxCostUsd`, in micro-USD after the source's `Math.round(maxCostUsd * USD_TO_MICRO)`
  pub max_cost_micro_usd : Option ℕ
  pub idempotency_key : String

-- The `code` of a `GatewayError`. The last two are not the gateway's: a unique index of the
-- database that refuses a row, and the `TypeError` of a missing row read through `!`.
pub data GatewayError : Type 0 where
  no_credit_account account_frozen insufficient_credit reservation_not_found : GatewayError
  invalid_grant_amount missing_idempotency_key provider_not_allowlisted : GatewayError
  byok_disabled byok_kms_required no_active_price cost_cap_exceeded : GatewayError
  provider_error provider_timeout unique_violation null_row : GatewayError
