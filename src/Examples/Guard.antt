-- ===== src/Examples/Guard.antt =====
-- The theorems of the guardrails, at a plan that runs a session, opens a position and publishes.
use arivion.Prelude.{String, ℤ, ◌≡◌, refl, Bool, true, false, none, some, List, [], ◌∷◌}
use arivion.Exit.Policy.{ExitPolicy, validate_exit_policy}
use arivion.Guard.Plan.{AutonomyLevel, GoalType, PlanStep, AgentPlan}
use arivion.Guard.Tools.{
  is_publish, is_managed_entry, managed_entry_tools, backtest_tools, optimizer_tools,
  is_live_paper_start, determinism_toggle_params,
}
use arivion.Guard.Playbooks.{get_playbook, open_managed_position}
use arivion.Guard.Validate.{validate_plan, check_steps, check_step, opens_position}
use arivion.Guard.Steps.{IsSafe}
use arivion.Guard.Safety.{accepted_step-IsSafe, accepted_entry_has_exit}
use arivion.Examples.Fixed.{thousandths}
use arivion.Examples.Exit.{policy}

abbrev pub step : String → String → Bool → PlanStep
step id tool approval = record {
  step_id = id;
  tool = tool;
  params =
      record { key = "bot_id"; has_value = true }
      ∷ record { key = "passport_id"; has_value = true }
      ∷ [];
  requires_approval = approval;
}

-- a plan of the level and the playbook, with the steps, whose step "s1" is gated
abbrev plan_of : AutonomyLevel → String → List PlanStep → AgentPlan ℤ
plan_of level playbook steps = record {
  plan_id = "p";
  goal_type = GoalType.user_request;
  owner_id = 1;
  thread_id = "t";
  autonomy_level = level;
  playbook_id = playbook;
  symbol = some "BTCUSDT";
  category = some "linear";
  steps = steps;
  approval_gates = "s1" ∷ [];
  budgets = record {
    max_tokens = 1000;
    max_steps = 3;
    max_runs = 1;
    max_sweeps = 0;
    max_live_sessions = 1;
    max_cost_micro_usd = 1000;
  };
  safety_notes = "";
  trigger_ref = none;
  exit_policy = some policy;
}

abbrev pub look : PlanStep
look = step "s0" "bot_cockpit" false

abbrev pub entry : PlanStep
entry = step "s1" "start_live_paper" true

abbrev pub publication : PlanStep
publication = step "s1" "publish_passport" true

abbrev backtest : PlanStep
backtest = step "s1" "run_bot_backtest" true

abbrev pub opening : AgentPlan ℤ
opening = plan_of AutonomyLevel.l2 "open_managed_position" (look ∷ entry ∷ [])

abbrev pub publishing : AgentPlan ℤ
publishing = plan_of AutonomyLevel.l3 "publish_verified_result" (publication ∷ [])

abbrev testing : AgentPlan ℤ
testing = plan_of AutonomyLevel.l1 "build_and_backtest_bot" (look ∷ backtest ∷ [])

pub accepted :
    ((validate_plan thousandths none opening).ok ≡ true)
    × ((validate_plan thousandths none publishing).ok ≡ true)
    × ((validate_plan thousandths none testing).ok ≡ true)
unfolding validate_plan get_playbook backtest_tools optimizer_tools is_live_paper_start
    is_managed_entry validate_exit_policy check_steps check_step determinism_toggle_params
    is_publish
accepted = (refl, refl, refl)

accepted_step-IsSafe_example : IsSafe thousandths opening open_managed_position entry
unfolding get_playbook
accepted_step-IsSafe_example =
    accepted_step-IsSafe thousandths none opening open_managed_position 1 entry refl accepted.0 refl

accepted_entry_has_exit_example :
    (p : ExitPolicy ℤ) × (opening.exit_policy ≡ some p)
    × (validate_exit_policy thousandths p ≡ none)
unfolding get_playbook opens_position is_managed_entry managed_entry_tools
accepted_entry_has_exit_example =
    accepted_entry_has_exit thousandths none opening open_managed_position refl accepted.0 refl
