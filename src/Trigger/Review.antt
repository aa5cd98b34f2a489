-- ===== src/Trigger/Review.antt =====
-- triggers/reviewPlan.ts: the plan that a trigger proposes. Texts for people are left out.
use arivion.Prelude.{ℕ, ◌*◌, String, true, false, none, some, [], ◌∷◌}
use arivion.Guard.Plan.{AutonomyLevel, GoalType, PlanStep, AgentPlan}
use arivion.Position.Plans.{Limits}

pub record ReviewInput : Type 0 where
  pub plan_id : String
  pub owner_id : ℕ
  pub thread_id : String
  pub playbook : String
  pub symbol : String
  pub category : String

abbrev coverage_step : PlanStep
coverage_step = record {
  step_id = "s1_coverage";
  tool = "data_coverage";
  params =
      record { key = "symbol"; has_value = true }
      ∷ record { key = "category"; has_value = true }
      ∷ record { key = "interval"; has_value = true }
      ∷ [];
  requires_approval = false;
}

-- `buildReviewPlan`, at the level L1 that it takes where none is given
unfoldable pub build_review_plan : {N : Type 0} → Limits → ReviewInput → AgentPlan N
build_review_plan limits input = record {
  plan_id = input.plan_id;
  goal_type = GoalType.trigger;
  owner_id = input.owner_id;
  thread_id = input.thread_id;
  autonomy_level = AutonomyLevel.l1;
  playbook_id = input.playbook;
  symbol = some input.symbol;
  category = some input.category;
  steps = coverage_step ∷ [];
  approval_gates = [];
  budgets = record {
    max_tokens = limits.max_output_tokens_per_step * 4;
    max_steps = 4;
    max_runs = 0;
    max_sweeps = 0;
    max_live_sessions = 0;
    max_cost_micro_usd = limits.max_cost_per_run;
  };
  safety_notes = "Read-only trigger review; no mutating tools.";
  trigger_ref = none;
  exit_policy = none;
}
