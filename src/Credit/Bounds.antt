-- ===== src/Credit/Bounds.antt =====
-- llm-gateway/creditMeter.ts: rounding never bills less than the price, and the estimate that is
-- held covers the cost.
use arivion.Prelude.{
  ℕ, zero, suc, ◌+◌, ◌-◌, ◌*◌, ◌≤◌, ◌<◌, ◌≡◌, List, arith, true, ◌==◌, ◌||◌, Bool-cases, inl, inr,
}
use native.Mathlib.Nat.{mul-le-mul_left, mul-le-mul_right, add-mul}
use arivion.Credit.Types.{ChatMessage, NormalizedUsage, PriceRow}
use arivion.Credit.Meter.{
  ceil_div, line_cost, or_else, estimate_tokens_from_messages, cost_for_usage,
  estimate_worst_case_cost,
}

ceil_million :
    (n : ℕ)
    → (n ≤ ceil_div n 1_000_000 * 1_000_000) × (ceil_div n 1_000_000 * 1_000_000 < n + 1_000_000)
unfolding ceil_div
ceil_million n = (omega arith, omega arith)

product_zero : (t r : ℕ) → (t == 0 || r == 0) ≡ true → t * r ≡ 0
product_zero zero r h = omega arith
product_zero (suc t) zero h = omega arith
product_zero (suc t) (suc r) h = ground arith

-- A line is billed at its price, rounded up by less than one micro-USD.
line_cost_rounds_up :
    (tokens rate : ℕ)
    → (tokens * rate ≤ line_cost tokens rate * 1_000_000)
      × (line_cost tokens rate * 1_000_000 < tokens * rate + 1_000_000)
unfolding line_cost
line_cost_rounds_up tokens rate = elim (Bool-cases (tokens == 0 || rate == 0)) [
  | inl free ↦
      let none : tokens * rate ≡ 0 = product_zero tokens rate free in
      rw (free, none) (omega arith, omega arith)
  | inr paid ↦ rw paid (ceil_million (tokens * rate))
]

line_cost_mono : (t u rate : ℕ) → t ≤ u → line_cost t rate ≤ line_cost u rate
line_cost_mono t u rate h =
    let scaled : t * rate ≤ u * rate = mul-le-mul_right rate h in
    let (low, high) = line_cost_rounds_up t rate in
    let (low', high') = line_cost_rounds_up u rate in omega arith

split_line :
    (t c e rate cached_rate : ℕ)
    → t ≤ e
    → c ≤ t
    → cached_rate ≤ rate
    → line_cost (t - c) rate + line_cost c cached_rate ≤ line_cost e rate + 1
split_line t c e rate cached_rate fits part cheap =
    let fresh = line_cost_rounds_up (t - c) rate in
    let again = line_cost_rounds_up c cached_rate in
    let whole = line_cost_rounds_up e rate in
    let cheaper : c * cached_rate ≤ c * rate = mul-le-mul_left c cheap in
    let total : (t - c) * rate + c * rate ≤ e * rate =
      rw (← add-mul (t - c) c rate) (mul-le-mul_right rate (omega arith)) in
    omega arith

-- The estimate for which credit is held covers the cost of what is used, but for one micro-USD that
-- rounding the cached part apart can add. Conditions: the input is at most the estimated number of
-- tokens and the output at most the cap, no reasoning tokens are reported apart, and cached input is
-- not dearer than other input.
pub worst_case_covers :
    (messages : List ChatMessage) (max_output_tokens : ℕ) (usage : NormalizedUsage)
    (price : PriceRow)
    → usage.input_tokens ≤ estimate_tokens_from_messages messages
    → usage.cached_input_tokens ≤ usage.input_tokens
    → usage.output_tokens ≤ max_output_tokens
    → usage.reasoning_tokens ≡ 0
    → or_else price.cached_input_micro_usd_per_mtoken price.input_micro_usd_per_mtoken
      ≤ price.input_micro_usd_per_mtoken
    → (cost_for_usage usage price).total_micro_usd
      ≤ (estimate_worst_case_cost messages max_output_tokens price).total_micro_usd + 1
unfolding cost_for_usage estimate_worst_case_cost
worst_case_covers messages max_output_tokens usage price fits_in cached fits_out no_reasoning
      cheap =
    let input =
      split_line usage.input_tokens usage.cached_input_tokens
        (estimate_tokens_from_messages messages - 0) price.input_micro_usd_per_mtoken
        (or_else price.cached_input_micro_usd_per_mtoken price.input_micro_usd_per_mtoken)
        (omega (arith, fits_in)) cached cheap in
    let output =
      line_cost_mono usage.output_tokens max_output_tokens price.output_micro_usd_per_mtoken
        fits_out in
    rw no_reasoning (omega (arith, input, output))
