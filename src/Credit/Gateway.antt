-- ===== src/Credit/Gateway.antt =====
-- llm-gateway/index.ts: `complete`, the one place that calls a provider and moves credit, with the
-- allowlist of llm-gateway/keyVault.ts and the usage events of llm-gateway/usageRecorder.ts.
-- What the provider answers, the price rows and the reservation's uuid are arguments.
use arivion.Prelude.{
  ℕ, ◌+◌, min, String, pos, Bool, true, false, not, ◌&&◌, ◌||◌, Option, none, some, List, [], ◌∷◌,
  ◌==◌, str_eq, includes, ltb, if◌then◌else◌, string_length,
}
use arivion.Credit.Types.{
  ProviderMode, managed, byok, MeteringQuality, actual, estimated, unknown, ChatMessage,
  NormalizedUsage, PriceRow, CompleteRequest, GatewayError, provider_timeout,
  missing_idempotency_key, provider_not_allowlisted, byok_disabled, byok_kms_required,
  no_active_price, cost_cap_exceeded,
}
use arivion.Credit.Meter.{or_else, ceil_div, cost_for_usage, estimate_worst_case_cost}
use arivion.Credit.Db.{UsageEventRow, Db, Result, ok, err, and_then}
use arivion.Credit.Ledger.{GrantConfig, ensure_account}
use arivion.Credit.Reservation.{reserve, finalize, release}

-- The part of `config` that the gateway reads; `max_cost_per_step_micro_usd` is
-- `Math.round(config.maxCostPerStepUsd * USD_TO_MICRO)`.
pub record GatewayConfig : Type 0 where
  pub grant_config : GrantConfig
  pub max_output_tokens_per_step : ℕ
  pub max_cost_per_step_micro_usd : ℕ
  pub byok_enabled : Bool
  pub is_prod : Bool
  pub kms_configured : Bool

-- What `execute` does: it reports usage, or throws. `provider_timeout` is `ProviderTimeoutError`.
pub data ProviderOutcome : Type 0 where
  response : NormalizedUsage → ProviderOutcome
  throws : GatewayError → ProviderOutcome

pub record CompleteResult : Type 0 where
  pub usage : NormalizedUsage
  pub cost_micro_usd : ℕ
  pub metering_quality : MeteringQuality
  pub reservation_id : Option String
  pub managed_balance_micro_usd : Option ℕ
  pub estimated_cost_micro_usd : ℕ
  pub succeeded : Bool

abbrev pub is_managed : ProviderMode → Bool
is_managed managed = true
is_managed byok = false

-- the names that every object literal inherits from `Object.prototype`
abbrev inherited_names : List String
inherited_names =
    "constructor" ∷ "hasOwnProperty" ∷ "isPrototypeOf" ∷ "propertyIsEnumerable" ∷ "toLocaleString"
    ∷ "toString" ∷ "valueOf" ∷ "__proto__" ∷ "__defineGetter__" ∷ "__defineSetter__"
    ∷ "__lookupGetter__" ∷ "__lookupSetter__" ∷ []

-- `PROVIDER_REGISTRY[provider]` is there: a key of its own, or an inherited one
unfoldable pub is_allowlisted : String → Bool
is_allowlisted provider =
    includes ("mock" ∷ "openai" ∷ "anthropic" ∷ []) provider || includes inherited_names provider

-- `assertByokEnabled`, as the error that it throws
unfoldable byok_error : GatewayConfig → Option GatewayError
byok_error config =
    if not config.byok_enabled
    then some byok_disabled
    else if config.is_prod && not config.kms_configured
    then some byok_kms_required
    else none

unfoldable pub current_balance : Db → ℕ → ℕ
current_balance db owner = elim (db.accounts owner) [
  | none ↦ 0
  | some a ↦ a.managed_balance_micro_usd
]

unfoldable pub step_cap_micro : GatewayConfig → Option ℕ → ℕ
step_cap_micro config none = config.max_cost_per_step_micro_usd
step_cap_micro config (some max_cost) = min config.max_cost_per_step_micro_usd max_cost

unfoldable pub find_usage : ℕ → String → List UsageEventRow → Option UsageEventRow
find_usage owner key [] = none
find_usage owner key (u ∷ us) =
    if u.owner_id == owner && str_eq u.idempotency_key key then some u else find_usage owner key us

-- INSERT INTO agent_llm_usage_events … ON CONFLICT (owner_id, idempotency_key) DO NOTHING
unfoldable pub record_usage : UsageEventRow → Db → Db
unfolding find_usage
record_usage u db = elim (find_usage u.owner_id u.idempotency_key db.usage_events) [
  | some _ ↦ db
  | none ↦ record db { usage_events = u ∷ db.usage_events }
]

-- `req.messages` in `estimateInput`: the contents alone, without the overhead of each message
content_chars : ℕ → List ChatMessage → ℕ
content_chars chars [] = chars
content_chars chars (m ∷ ms) = content_chars (chars + string_length m.content) ms

unfoldable pub estimate_input : CompleteRequest → ℕ
unfolding content_chars ceil_div
estimate_input req = ceil_div (content_chars 0 req.messages) 4

abbrev zero_usage : NormalizedUsage
zero_usage = record {
  input_tokens = 0;
  cached_input_tokens = 0;
  output_tokens = 0;
  reasoning_tokens = 0;
  tool_call_count = 0;
}

abbrev pub expected_usage : CompleteRequest → ℕ → NormalizedUsage
expected_usage req max_output_tokens = record {
  input_tokens = estimate_input req;
  cached_input_tokens = 0;
  output_tokens = ceil_div max_output_tokens 2;
  reasoning_tokens = 0;
  tool_call_count = 0;
}

-- `price ? costForUsage(usage, price) : ZERO_COST`, its total
abbrev cost_of : Option PriceRow → NormalizedUsage → ℕ
cost_of none usage = 0
cost_of (some price) usage = (cost_for_usage usage price).total_micro_usd

abbrev pub usage_event :
    CompleteRequest → NormalizedUsage → ℕ → ℕ → MeteringQuality → String → UsageEventRow
usage_event req usage cost debit quality status = record {
  owner_id = req.owner_id;
  idempotency_key = req.idempotency_key;
  input_tokens = usage.input_tokens;
  cached_input_tokens = usage.cached_input_tokens;
  output_tokens = usage.output_tokens;
  reasoning_tokens = usage.reasoning_tokens;
  tool_call_count = usage.tool_call_count;
  provider_cost_micro_usd = cost;
  duality_credit_debit_micro_usd = debit;
  metering_quality = quality;
  status = status;
  provider = req.provider;
  model = req.model;
  provider_mode = req.provider_mode;
}

abbrev balance_if_managed : CompleteRequest → Db → Option ℕ
balance_if_managed req db =
    if is_managed req.provider_mode then some (current_balance db req.owner_id) else none

-- the answer to a key that already has a usage event
abbrev replayed : CompleteRequest → UsageEventRow → Db → CompleteResult
replayed req prior db = record {
  usage = record {
    input_tokens = prior.input_tokens;
    cached_input_tokens = prior.cached_input_tokens;
    output_tokens = prior.output_tokens;
    reasoning_tokens = prior.reasoning_tokens;
    tool_call_count = prior.tool_call_count;
  };
  cost_micro_usd = prior.provider_cost_micro_usd;
  metering_quality = prior.metering_quality;
  reservation_id = none;
  managed_balance_micro_usd = balance_if_managed req db;
  estimated_cost_micro_usd = prior.provider_cost_micro_usd;
  succeeded = str_eq prior.status "ok";
}

-- `if (managed && reservationId) await finalize(…)`
unfoldable pub finalize_if : Option String → ℕ → Db → Result (Unit {0}) × Db
finalize_if none cost db = (ok tt, db)
finalize_if (some id) cost db = finalize id (pos cost) db

unfoldable pub release_if : Option String → Db → Result (Unit {0}) × Db
release_if none db = (ok tt, db)
release_if (some id) db = release id "PROVIDER_ERROR" db

-- `meter`: settle, record the usage event and answer, for usage that is actual or estimated
unfoldable pub meter :
    CompleteRequest
    → Option String
    → Option PriceRow
    → ℕ
    → NormalizedUsage
    → MeteringQuality
    → String
    → Bool
    → Db
    → Result CompleteResult × Db
unfolding finalize_if record_usage
meter req reservation price estimate usage quality status succeeded db =
    let cost = cost_of price usage in
    and_then (finalize_if reservation cost db) (λ _ db1.
      let debit = if is_managed req.provider_mode then cost else 0 in
      let db2 = record_usage (usage_event req usage cost debit quality status) db1 in
      (
        ok (record {
          usage = usage;
          cost_micro_usd = cost;
          metering_quality = quality;
          reservation_id = reservation;
          managed_balance_micro_usd = balance_if_managed req db2;
          estimated_cost_micro_usd = estimate;
          succeeded = succeeded;
        }),
        db2,
      ))

-- an error other than a timeout: refund, record, rethrow
unfoldable pub refund_and_throw :
    CompleteRequest → Option String → GatewayError → Db → Result CompleteResult × Db
unfolding release_if record_usage
refund_and_throw req reservation e db =
    and_then (release_if reservation db)
      (λ _ db1. (err e, record_usage (usage_event req zero_usage 0 0 unknown "error") db1))

abbrev pub is_timeout : GatewayError → Bool
is_timeout provider_timeout = true
is_timeout _ = false

unfoldable pub handle_execute_failure :
    CompleteRequest
    → Option String
    → Option PriceRow
    → ℕ
    → ℕ
    → GatewayError
    → Db
    → Result CompleteResult × Db
unfolding meter refund_and_throw
handle_execute_failure req reservation price max_output_tokens estimate e db =
    if is_timeout e
    then meter req reservation price estimate (expected_usage req max_output_tokens) estimated
        "timeout" false db
    else refund_and_throw req reservation e db

-- the `catch` around the metering of an answer: `finalize` is what can throw there
abbrev pub catch_meter :
    CompleteRequest
    → Option String
    → Option PriceRow
    → ℕ
    → ℕ
    → Result CompleteResult × Db
    → Result CompleteResult × Db
catch_meter req reservation price max_output_tokens estimate (ok result, db) = (ok result, db)
catch_meter req reservation price max_output_tokens estimate (err e, db) =
    handle_execute_failure req reservation price max_output_tokens estimate e db

-- steps 3 to 6, once the hold is taken
unfoldable pub execute_and_meter :
    CompleteRequest
    → Option String
    → Option PriceRow
    → ℕ
    → ℕ
    → ProviderOutcome
    → Db
    → Result CompleteResult × Db
unfolding meter handle_execute_failure
execute_and_meter req reservation price max_output_tokens estimate (response usage) db =
    catch_meter req reservation price max_output_tokens estimate
      (meter req reservation price estimate usage actual "ok" true db)
execute_and_meter req reservation price max_output_tokens estimate (throws e) db =
    handle_execute_failure req reservation price max_output_tokens estimate e db

abbrev pub max_output_of : GatewayConfig → CompleteRequest → ℕ
max_output_of config req =
    min (or_else req.max_tokens config.max_output_tokens_per_step) config.max_output_tokens_per_step

abbrev pub estimate_of : CompleteRequest → ℕ → Option PriceRow → ℕ
estimate_of req max_output_tokens none = 0
estimate_of req max_output_tokens (some price) =
    (estimate_worst_case_cost req.messages max_output_tokens price).total_micro_usd

-- steps 0 to 2 for managed credit: the account, the price, the cap and the hold
unfoldable pub complete_managed :
    GatewayConfig
    → Option PriceRow
    → String
    → ProviderOutcome
    → CompleteRequest
    → Db
    → Result CompleteResult × Db
unfolding execute_and_meter
complete_managed config none uuid outcome req db =
    and_then (ensure_account config.grant_config req.owner_id db)
      (λ _ db1. (err no_active_price, db1))
complete_managed config (some price) uuid outcome req db =
    and_then (ensure_account config.grant_config req.owner_id db) (λ _ db1.
      let max_output_tokens = max_output_of config req in
      let estimate = estimate_of req max_output_tokens (some price) in
      if ltb (step_cap_micro config req.max_cost_micro_usd) estimate
      then (err cost_cap_exceeded, db1)
      else and_then
          (reserve uuid
            (record {
              owner_id = req.owner_id;
              idempotency_key = req.idempotency_key;
              provider = req.provider;
              model = req.model;
              provider_mode = req.provider_mode;
              reserved_micro_usd = pos estimate;
            })
            db1)
          (λ r db2.
            execute_and_meter req (some r.id) (some price) max_output_tokens estimate outcome db2))

-- the replay guard, then the two modes
unfoldable pub complete_new :
    GatewayConfig
    → Option PriceRow
    → String
    → ProviderOutcome
    → CompleteRequest
    → Option UsageEventRow
    → Db
    → Result CompleteResult × Db
unfolding complete_managed execute_and_meter
complete_new config price uuid outcome req (some prior) db = (ok (replayed req prior db), db)
complete_new config price uuid outcome req none db =
    if is_managed req.provider_mode
    then complete_managed config price uuid outcome req db
    else let max_output_tokens = max_output_of config req in
      execute_and_meter req none price max_output_tokens (estimate_of req max_output_tokens price)
        outcome db

-- the checks that read no table
unfoldable pub request_error : GatewayConfig → CompleteRequest → Option GatewayError
unfolding is_allowlisted byok_error
request_error config req =
    if str_eq req.idempotency_key ""
    then some missing_idempotency_key
    else if not (is_allowlisted req.provider)
    then some provider_not_allowlisted
    else if is_managed req.provider_mode
    then none
    else byok_error config

unfoldable pub complete :
    GatewayConfig
    → Option PriceRow
    → String
    → ProviderOutcome
    → CompleteRequest
    → Db
    → Result CompleteResult × Db
unfolding complete_new find_usage
complete config price uuid outcome req db = elim (request_error config req) [
  | some e ↦ (err e, db)
  | none ↦
      complete_new config price uuid outcome req
        (find_usage req.owner_id req.idempotency_key db.usage_events) db
]
