-- ===== src/Position/Plans.antt =====
-- positions/plans.ts: the plans that open and close a managed position. What the guardrails do not
-- read (rationales, stop conditions, artifacts) is left out, as is the text of a parameter.
use arivion.Prelude.{ℕ, ◌*◌, String, Bool, true, false, Option, none, some, [], ◌∷◌, if◌then◌else◌}
use arivion.Exit.Policy.{ExitPolicy}
use arivion.Guard.Plan.{AutonomyLevel, GoalType, Param, PlanStep, AgentPlan}

-- the part of `config` that bounds a plan: `maxOutputTokensPerStep`, and `maxCostPerRunUsd` in micro-dollars
pub record Limits : Type 0 where
  pub max_output_tokens_per_step : ℕ
  pub max_cost_per_run : ℕ

pub record OpenPositionInput (N : Type 0) : Type 0 where
  pub plan_id : String
  pub owner_id : ℕ
  pub thread_id : String
  pub symbol : String
  pub category : String
  pub exit_policy : ExitPolicy N
  pub autonomy : Option AutonomyLevel

pub record ClosePositionInput : Type 0 where
  pub plan_id : String
  pub owner_id : ℕ
  pub thread_id : String
  pub symbol : Option String
  pub category : Option String

abbrev given : String → Param
given key = record { key = key; has_value = true }

abbrev pub or_l2 : Option AutonomyLevel → AutonomyLevel
or_l2 none = AutonomyLevel.l2
or_l2 (some level) = level

abbrev needs_human : AutonomyLevel → Bool
needs_human AutonomyLevel.l0 = false
needs_human AutonomyLevel.l1 = true
needs_human AutonomyLevel.l1_5_shadow = true
needs_human AutonomyLevel.l2 = false
needs_human AutonomyLevel.l3 = false

abbrev pub spec_step : PlanStep
spec_step = record {
  step_id = "s1_spec";
  tool = "get_bot_spec";
  params = given "bot_id" ∷ [];
  requires_approval = false;
}

abbrev pub open_step : Bool → PlanStep
open_step need_approval = record {
  step_id = "s2_open";
  tool = "start_live_paper";
  params = given "bot_id" ∷ given "max_runtime_seconds" ∷ given "investment_quote" ∷ [];
  requires_approval = need_approval;
}

abbrev pub stop_step : PlanStep
stop_step = record {
  step_id = "s1_stop";
  tool = "stop_live_paper";
  params = given "session_id" ∷ [];
  requires_approval = false;
}

unfoldable pub build_open_position_plan : {N : Type 0} → Limits → OpenPositionInput N → AgentPlan N
build_open_position_plan limits input =
    let autonomy = or_l2 input.autonomy in
    let need_approval = needs_human autonomy in
    record {
      plan_id = input.plan_id;
      goal_type = GoalType.user_request;
      owner_id = input.owner_id;
      thread_id = input.thread_id;
      autonomy_level = autonomy;
      playbook_id = "open_managed_position";
      symbol = some input.symbol;
      category = some input.category;
      steps = spec_step ∷ open_step need_approval ∷ [];
      approval_gates = if need_approval then "s2_open" ∷ [] else [];
      budgets = record {
        max_tokens = limits.max_output_tokens_per_step * 4;
        max_steps = 4;
        max_runs = 0;
        max_sweeps = 0;
        max_live_sessions = 1;
        max_cost_micro_usd = limits.max_cost_per_run;
      };
      safety_notes =
          "Managed entry: exit consequences are bound at entry and enforced by the monitor.";
      trigger_ref = none;
      exit_policy = some input.exit_policy;
    }

unfoldable pub build_close_position_plan : {N : Type 0} → Limits → ClosePositionInput → AgentPlan N
build_close_position_plan limits input = record {
  plan_id = input.plan_id;
  goal_type = GoalType.scheduled;
  owner_id = input.owner_id;
  thread_id = input.thread_id;
  autonomy_level = AutonomyLevel.l2;
  playbook_id = "manage_position";
  symbol = input.symbol;
  category = input.category;
  steps = stop_step ∷ [];
  approval_gates = [];
  budgets = record {
    max_tokens = limits.max_output_tokens_per_step * 2;
    max_steps = 2;
    max_runs = 0;
    max_sweeps = 0;
    max_live_sessions = 0;
    max_cost_micro_usd = limits.max_cost_per_run;
  };
  safety_notes = "Autonomous protective exit, pre-authorized by the entry exit_policy.";
  trigger_ref = none;
  exit_policy = none;
}
