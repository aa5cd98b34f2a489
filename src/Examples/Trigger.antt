-- ===== src/Examples/Trigger.antt =====
-- The theorems of budgets and triggers, at an event whose regime has flipped.
use arivion.Prelude.{
  ◌≤◌, ℤ, pos, ◌≡◌, refl, arith, true, false, not, none, some, List, [], ◌∷◌, count, get_elem?,
  includes,
}
use arivion.Guard.Plan.{AutonomyLevel}
use arivion.Guard.Validate.{validate_plan}
use arivion.Risk.Status.{get_risk_state}
use arivion.Budget.{
  BudgetConfig, run, check_budget, day_usage, record_budget_event, checked_event_within_cap,
  used_of, cap_of,
}
use arivion.Trigger.Conditions.{MarketEvent, Defaults, Candidate, raise, rules, evaluate_conditions}
use arivion.Trigger.Review.{ReviewInput, build_review_plan}
use arivion.Trigger.Rails.{
  OwnerSettings, live, TriggerConfig, Fired, TriggerWorld, TriggerEnv, is_dup, last_fire,
}
use arivion.Trigger.Evaluate.{
  armed_rows, config_of, fire, consider, consider_all, rails_off, evaluate_event,
}
use arivion.Trigger.Fires.{IsAllowed, live_fire-IsAllowed, Evaluation, evaluate_in_turn, fires_once}
use arivion.Trigger.Plans.{onchain_playbooks, review_plan_verdict}
use arivion.Examples.Fixed.{thousandths}
use arivion.Examples.Position.{limits}

abbrev caps : BudgetConfig
caps = record { max_runs_per_day = 1; max_live_sessions_per_day = 1; reaches_cost = λ spent. false }

checked_event_within_cap_example :
    used_of (day_usage 9 1 0 (record_budget_event 5 1 "run" none none 1 [])) run ≤ cap_of caps run
unfolding check_budget
checked_event_within_cap_example =
    checked_event_within_cap caps 5 9 1 0 1 run none none [] (omega arith) refl

abbrev flip : MarketEvent ℤ
flip = record {
  symbol = "BTCUSDT";
  category = none;
  volume = none;
  median_volume = none;
  vol_pct = none;
  median_vol_pct = none;
  regime = some "bear";
  prev_regime = some "bull";
  funding_rate = none;
  drawdown = none;
  age_ms = none;
  bar_ts = some 60_000;
  lp_in_range = none;
  lp_fee_apr_pct = none;
  lp_entry_fee_apr_pct = none;
  lp_il_pct = none;
  lp_il_budget_pct = none;
  funding_sign = none;
  prev_funding_sign = none;
}

abbrev defaults : Defaults ℤ
defaults = record {
  volatility_spike = pos 2000;
  funding_extreme = pos 1;
  volume_spike = pos 3000;
  drawdown = pos 150;
  coverage = pos 600_000_000;
  fee_apr_decay = pos 500;
  il_breach = pos 1000;
}

abbrev env : TriggerEnv ℤ
env = record {
  now = 5;
  hour = 3;
  global_kill = false;
  max_per_day = 4;
  trigger_cooldown_seconds = 1800;
  spent = 0;
  budget_config = caps;
  budget = [];
  limits = limits;
  defaults = defaults;
  fresh_id = λ i. "trg_1";
  thread_id = λ i. "t";
  plan_id = λ i. "p";
  digest = λ owner type symbol regime bucket. type;
}

abbrev settings : OwnerSettings
settings = record {
  autonomy_level = AutonomyLevel.l2;
  agent_enabled = true;
  disable_triggers = false;
}

abbrev armed : List (TriggerConfig ℤ)
armed =
    record {
      owner_id = 1;
      armed = true;
      trigger_type = "regime_flip";
      threshold = none;
      cooldown_seconds = some 60;
      default_live = true;
      quiet_hours = 4 ∷ [];
    }
    ∷ []

abbrev quiet_world : TriggerWorld ℤ
quiet_world = record { rows = []; settings = λ o. none; launched = [] }

abbrev fired : Fired
fired = record {
  id = "trg_1";
  trigger_type = "regime_flip";
  mode = live;
  acted = true;
  skip = none;
}

fires_live :
    get_elem? (evaluate_event thousandths env 1 settings armed flip quiet_world).0 0 ≡ some fired
unfolding evaluate_event consider_all consider fire config_of last_fire evaluate_conditions raise
    rules check_budget get_risk_state
fires_live = refl

live_fire-IsAllowed_example :
    (rails_off env settings ≡ false)
    × ((a : IsAllowed env 1 settings flip (armed_rows 1 armed) fired) × (a.config.owner_id ≡ 1)
        × (a.config.armed ≡ true))
live_fire-IsAllowed_example =
    live_fire-IsAllowed thousandths env 1 settings armed flip quiet_world 0 fired fires_live refl

abbrev flips : Evaluation thousandths
flips = record { env = env; owner = 1; settings = settings; configs = armed; event = flip }

fires_once_example :
    count
      (is_dup 1 "regime_flip")
      (evaluate_in_turn thousandths (flips ∷ flips ∷ []) quiet_world).rows
    ≤ 1
fires_once_example =
    fires_once thousandths (flips ∷ flips ∷ []) quiet_world 1 "regime_flip" (omega arith)

abbrev review_input : ReviewInput
review_input = record {
  plan_id = "p";
  owner_id = 1;
  thread_id = "t";
  playbook = "";
  symbol = "BTCUSDT";
  category = "linear";
}

abbrev flip_review : Candidate
flip_review = record {
  trigger_type = "regime_flip";
  playbook = "regime_flip_review";
  confidence = 100;
}

review_plan_verdict_example :
    (validate_plan thousandths none
      (build_review_plan limits (record review_input { playbook = "regime_flip_review" }))).ok
    ≡ not (includes onchain_playbooks "regime_flip_review")
unfolding evaluate_conditions raise rules
review_plan_verdict_example =
    review_plan_verdict thousandths limits review_input defaults flip (λ type. none) 0 flip_review
      refl
