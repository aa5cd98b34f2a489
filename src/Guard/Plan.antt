-- ===== src/Guard/Plan.antt =====
-- orchestrator/plan.ts: the typed plan. `N` is the type of the exit policy's numbers. Of a step's
-- parameters the guardrails read the keys and whether the value is null or undefined.
use arivion.Prelude.{ℕ, String, Bool, Option, List}
use arivion.Exit.Policy.{ExitPolicy}

pub data AutonomyLevel : Type 0 where
  l0 l1 l1_5_shadow l2 l3 : AutonomyLevel

-- `AUTONOMY_RANK`
abbrev pub autonomy_rank : AutonomyLevel → ℕ
autonomy_rank AutonomyLevel.l0 = 0
autonomy_rank AutonomyLevel.l1 = 1
autonomy_rank AutonomyLevel.l1_5_shadow = 2
autonomy_rank AutonomyLevel.l2 = 3
autonomy_rank AutonomyLevel.l3 = 4

pub data GoalType : Type 0 where
  user_request trigger scheduled : GoalType

pub record Param : Type 0 where
  pub key : String
  pub has_value : Bool

pub record PlanStep : Type 0 where
  pub step_id : String
  pub tool : String
  pub params : List Param
  pub requires_approval : Bool

pub record Budgets : Type 0 where
  pub max_tokens : ℕ
  pub max_steps : ℕ
  pub max_runs : ℕ
  pub max_sweeps : ℕ
  pub max_live_sessions : ℕ
  pub max_cost_micro_usd : ℕ

pub record AgentPlan (N : Type 0) : Type 0 where
  pub plan_id : String
  pub goal_type : GoalType
  pub owner_id : ℕ
  pub thread_id : String
  pub autonomy_level : AutonomyLevel
  pub playbook_id : String
  pub symbol : Option String
  pub category : Option String
  pub steps : List PlanStep
  pub approval_gates : List String
  pub budgets : Budgets
  pub safety_notes : String
  pub trigger_ref : Option String
  pub exit_policy : Option (ExitPolicy N)
