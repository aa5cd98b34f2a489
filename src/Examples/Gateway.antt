-- ===== src/Examples/Gateway.antt =====
-- The theorems of `complete`, at one managed call.
use arivion.Prelude.{arith, ◌≡◌, refl, string_length, eq_iff, true, false, none, some, [], ◌∷◌}
use arivion.Credit.Types.{
  managed, Role, PriceRow, NormalizedUsage, CompleteRequest, actual, cost_cap_exceeded,
}
use arivion.Credit.Db.{
  err, AccountRow, AccountStatus, Db, Result, empty_db, has_ledger_key, find_by_key, find_by_id,
  set_balance_after,
}
use arivion.Credit.Meter.{
  estimate_worst_case_cost, cost_for_usage, line_cost, estimate_tokens_from_messages,
}
use arivion.Credit.Reservation.{reserve, finalize}
use arivion.Credit.Ledger.{ensure_account}
use arivion.Credit.Gateway.{
  GatewayConfig, ProviderOutcome, CompleteResult, complete, request_error, step_cap_micro,
  current_balance, find_usage, is_allowlisted,
}
use arivion.Credit.Books.{Books}
use arivion.Credit.Embedding.{EmbedRequest, Quote, quote}
use arivion.Credit.QuoteRefused.{quote_refused}
use arivion.Credit.Replay.{complete_twice}

abbrev config : GatewayConfig
config = record {
  grant_config = record { welcome_credit_micro_usd = 1000; show_owner = λ owner. "1" };
  max_output_tokens_per_step = 10;
  max_cost_per_step_micro_usd = 500;
  byok_enabled = false;
  is_prod = true;
  kms_configured = true;
}

abbrev price : PriceRow
price = record {
  provider = "mock";
  model = "m";
  input_micro_usd_per_mtoken = 500_000;
  cached_input_micro_usd_per_mtoken = none;
  output_micro_usd_per_mtoken = 1_500_000;
  reasoning_micro_usd_per_mtoken = none;
}

abbrev hello : CompleteRequest
hello = record {
  owner_id = 1;
  provider_mode = managed;
  provider = "mock";
  model = "m";
  messages = record { role = Role.user; content = "hello" } ∷ [];
  max_tokens = none;
  max_cost_micro_usd = none;
  idempotency_key = "k";
}

abbrev used : NormalizedUsage
used = record {
  input_tokens = 4;
  cached_input_tokens = 1;
  output_tokens = 7;
  reasoning_tokens = 0;
  tool_call_count = 0;
}

abbrev first : Result CompleteResult × Db
first = complete config (some price) "r" (ProviderOutcome.response used) hello empty_db

abbrev result : CompleteResult
result = record {
  usage = used;
  cost_micro_usd = 14;
  metering_quality = actual;
  reservation_id = some "r";
  managed_balance_micro_usd = some 986;
  estimated_cost_micro_usd = 17;
  succeeded = true;
}

-- The answer is metered once, although the same key is asked again with other messages.
complete_twice_example :
    (complete config none "s"
      (ProviderOutcome.response used)
      (record hello { messages = [] })
      first.1).1
    ≡ first.1
unfolding complete request_error ensure_account has_ledger_key step_cap_micro
    estimate_worst_case_cost cost_for_usage line_cost estimate_tokens_from_messages string_length
    reserve find_by_key find_by_id set_balance_after finalize current_balance
complete_twice_example =
    complete_twice config (some price) none "r" "s" (ProviderOutcome.response used)
      (ProviderOutcome.response used) hello (record hello { messages = [] }) empty_db first.1 result
      refl refl refl

abbrev text : EmbedRequest
text = record { owner_id = 1; text = "hello"; provider = "mock"; model = "m" }

-- at most 5 micro-USD for a step, where the estimate is 17
abbrev capped : GatewayConfig
capped = record config { max_cost_per_step_micro_usd = 5 }

abbrev dear : Quote
dear = record {
  estimated_cost_micro_usd = 17;
  max_output_tokens = 10;
  priced = true;
  within_step_cap = false;
}

abbrev opened : Db
opened = (ensure_account config.grant_config 1 empty_db).1

abbrev owner : AccountRow
owner = record {
  owner_id = 1;
  currency = "USD";
  managed_balance_micro_usd = 1000;
  lifetime_grants_micro_usd = 1000;
  lifetime_spend_micro_usd = 0;
  status = AccountStatus.active;
}

-- the price after it has risen
abbrev raised : PriceRow
raised = record price { output_micro_usd_per_mtoken = 2_000_000 }

quote_refused_example :
    complete capped (some raised) "r" (ProviderOutcome.response used) hello empty_db
    ≡ (err cost_cap_exceeded, opened)
unfolding quote find_usage ensure_account is_allowlisted estimate_worst_case_cost cost_for_usage
    line_cost estimate_tokens_from_messages string_length step_cap_micro has_ledger_key
quote_refused_example =
    quote_refused capped (some price) raised "r" (ProviderOutcome.response used) hello empty_db
      opened dear owner refl refl (omega arith) refl (λ e. cc ((eq_iff "k" "").1 e)) refl refl
