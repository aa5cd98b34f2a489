-- ===== src/Credit/Meter.antt =====
-- llm-gateway/creditMeter.ts: cost arithmetic, with no database.
use arivion.Prelude.{
  ℕ, ◌+◌, ◌-◌, ◌*◌, ◌/◌, Option, none, some, List, [], ◌∷◌, ◌||◌, ◌==◌, if◌then◌else◌,
  string_length,
}
use arivion.Credit.Types.{Role, ChatMessage, NormalizedUsage, PriceRow, CostBreakdown}

-- `Math.ceil(a / b)` for b > 0
unfoldable pub ceil_div : ℕ → ℕ → ℕ
ceil_div a b = (a + (b - 1)) / b

-- `m.role.length`
abbrev role_length : Role → ℕ
role_length Role.system = 6
role_length Role.user = 4
role_length Role.assistant = 9
role_length Role.tool = 4

-- the loop over `messages`, from `chars`
message_chars : ℕ → List ChatMessage → ℕ
message_chars chars [] = chars
message_chars chars (m ∷ ms) =
    message_chars (chars + (string_length m.content + role_length m.role + 4)) ms

unfoldable pub estimate_tokens_from_messages : List ChatMessage → ℕ
unfolding ceil_div message_chars
estimate_tokens_from_messages messages = ceil_div (message_chars 0 messages) 4

unfoldable pub line_cost : ℕ → ℕ → ℕ
unfolding ceil_div
line_cost tokens micro_per_mtoken =
    if tokens == 0 || micro_per_mtoken == 0
    then 0
    else ceil_div (tokens * micro_per_mtoken) 1_000_000

-- `a ?? b`
abbrev pub or_else : Option ℕ → ℕ → ℕ
or_else none b = b
or_else (some a) b = a

-- `Math.max(0, a - b)` is `a - b` on the naturals.
unfoldable pub cost_for_usage : NormalizedUsage → PriceRow → CostBreakdown
cost_for_usage usage price =
    let cached = usage.cached_input_tokens in
    let uncached_input = usage.input_tokens - cached in
    let cached_rate =
      or_else price.cached_input_micro_usd_per_mtoken price.input_micro_usd_per_mtoken in
    let reasoning_rate =
      or_else price.reasoning_micro_usd_per_mtoken price.output_micro_usd_per_mtoken in
    let input = line_cost uncached_input price.input_micro_usd_per_mtoken in
    let cached_input = line_cost cached cached_rate in
    let output = line_cost usage.output_tokens price.output_micro_usd_per_mtoken in
    let reasoning = line_cost usage.reasoning_tokens reasoning_rate in
    record {
      input_micro_usd = input;
      cached_input_micro_usd = cached_input;
      output_micro_usd = output;
      reasoning_micro_usd = reasoning;
      total_micro_usd = input + cached_input + output + reasoning;
    }

unfoldable pub estimate_worst_case_cost : List ChatMessage → ℕ → PriceRow → CostBreakdown
estimate_worst_case_cost messages max_output_tokens price =
    cost_for_usage
      (record {
        input_tokens = estimate_tokens_from_messages messages;
        cached_input_tokens = 0;
        output_tokens = max_output_tokens;
        reasoning_tokens = 0;
        tool_call_count = 0;
      })
      price
