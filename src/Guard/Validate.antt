-- ===== src/Guard/Validate.antt =====
-- guardrails/index.ts: `validatePlan`. A plan is accepted if it has no violation.
use arivion.Prelude.{
  ℕ, String, Bool, true, false, not, ◌&&◌, ◌||◌, Option, none, some, List, [], ◌∷◌, ◌++◌, length,
  count, any, includes, str_eq, ltb, leb, ◌==◌, if◌then◌else◌,
}
use Prim.Native.Char.{code}
use text.Mathlib.Text.{starts_with}
use arivion.Exit.Real.{Real}
use arivion.Exit.Policy.{ExitPolicy, validate_exit_policy}
use arivion.Guard.Plan.{AutonomyLevel, autonomy_rank, GoalType, PlanStep, AgentPlan}
use arivion.Guard.Tools.{
  is_mutating, is_managed_entry, is_live_paper_start, is_publish, optimizer_tools, backtest_tools,
  determinism_toggle_params,
}
use arivion.Guard.Playbooks.{Playbook, get_playbook}

pub data Decision : Type 0 where
  allow needs_approval blocked : Decision

pub data Code : Type 0 where
  unknown_playbook below_min_autonomy missing_required_input over_budget : Code
  naked_entry_forbidden invalid_exit_policy tool_not_in_allowlist mutation_in_l0 : Code
  live_paper_requires_l2 publish_requires_approval web_trigger_no_trade : Code
  approval_required approval_gate_not_declared determinism_toggle_needs_notes : Code
  invalid_tool_params : Code

pub record Violation : Type 0 where
  pub code : Code
  pub step_id : Option String

pub record StepDecision : Type 0 where
  pub step_id : String
  pub tool : String
  pub decision : Decision
  pub reason : Option Code

pub record GuardrailResult : Type 0 where
  pub ok : Bool
  pub decisions : List StepDecision
  pub violations : List Violation

-- `paramSchemaResolver`, once awaited: the known parameters of a tool, or null
abbrev pub Resolver : Type 0
Resolver = String → Option (List String)

abbrev pub violation_if : Bool → Code → List Violation
violation_if true code = record { code = code; step_id = none } ∷ []
violation_if false code = []

abbrev is_some : {A : Type 0} → Option A → Bool
is_some none = false
is_some (some _) = true

abbrev pub is_none : {A : Type 0} → Option A → Bool
is_none none = true
is_none (some _) = false

-- the characters that `trim` takes away
abbrev is_space : ℕ → Bool
is_space c =
    (leb 9 c && leb c 13)
    || c == 32
    || c == 160
    || c == 5760
    || (leb 8192 c && leb c 8202)
    || c == 8232
    || c == 8233
    || c == 8239
    || c == 8287
    || c == 12288
    || c == 65279

-- `s.trim() === ""`
unfoldable pub is_blank : String → Bool
is_blank String.[] = true
is_blank (String.◌∷◌ c s) = is_space (code c) && is_blank s

abbrev pub is_l0 : AutonomyLevel → Bool
is_l0 AutonomyLevel.l0 = true
is_l0 _ = false

abbrev pub below_l2 : AutonomyLevel → Bool
below_l2 level = ltb (autonomy_rank level) (autonomy_rank AutonomyLevel.l2)

-- the fields that every plan has, after `AgentPlanSchema`
abbrev plan_fields : List String
plan_fields =
    "plan_id" ∷ "goal_type" ∷ "owner_id" ∷ "thread_id" ∷ "autonomy_level" ∷ "playbook_id"
    ∷ "execution_fidelity" ∷ "steps" ∷ "approval_gates" ∷ "budgets" ∷ "stop_conditions"
    ∷ "expected_artifacts" ∷ "safety_notes" ∷ []

abbrev is_trigger : GoalType → Bool
is_trigger GoalType.trigger = true
is_trigger GoalType.user_request = false
is_trigger GoalType.scheduled = false

abbrev from_web : Option String → Bool
from_web none = false
from_web (some ref) = starts_with ref "web:"

module _ (R : Real) where
  open R use {Num}

  -- `(plan as Record<string, unknown>)[input] != null`
  unfoldable on_plan : AgentPlan Num → String → Bool
  on_plan plan input =
      includes plan_fields input
      || (str_eq input "symbol" && is_some plan.symbol)
      || (str_eq input "category" && is_some plan.category)
      || (str_eq input "trigger_ref" && is_some plan.trigger_ref)
      || (str_eq input "exit_policy" && is_some plan.exit_policy)

  unfoldable in_steps : AgentPlan Num → String → Bool
  in_steps plan input = any (λ s. any (λ p. str_eq p.key input && p.has_value) s.params) plan.steps

  unfoldable missing_inputs : AgentPlan Num → List String → List Violation
  unfolding on_plan in_steps
  missing_inputs plan [] = []
  missing_inputs plan (input ∷ inputs) =
      violation_if (not (on_plan plan input) && not (in_steps plan input)) missing_required_input
      ++ missing_inputs plan inputs

  unfoldable pub runs : AgentPlan Num → ℕ
  runs plan = count (λ s. includes backtest_tools s.tool) plan.steps

  unfoldable pub sweeps : AgentPlan Num → ℕ
  sweeps plan = count (λ s. includes optimizer_tools s.tool) plan.steps

  unfoldable pub lives : AgentPlan Num → ℕ
  lives plan = count (λ s. is_live_paper_start s.tool) plan.steps

  unfoldable pub opens_position : AgentPlan Num → Bool
  opens_position plan = any (λ s. is_managed_entry s.tool) plan.steps

  unfoldable pub exit_violations : Bool → Option (ExitPolicy Num) → List Violation
  exit_violations false policy = []
  exit_violations true none = violation_if true naked_entry_forbidden
  exit_violations true (some policy) =
      violation_if (not (is_none (validate_exit_policy R policy))) invalid_exit_policy

  unfoldable pub plan_violations : AgentPlan Num → Playbook → List Violation
  unfolding missing_inputs runs sweeps lives opens_position exit_violations
  plan_violations plan playbook =
      violation_if (ltb (autonomy_rank plan.autonomy_level) (autonomy_rank playbook.min_autonomy))
        below_min_autonomy
      ++ (missing_inputs plan playbook.required_inputs
          ++ (violation_if (ltb plan.budgets.max_steps (length plan.steps)) over_budget
              ++ (violation_if (ltb plan.budgets.max_runs (runs plan)) over_budget
                  ++ (violation_if (ltb plan.budgets.max_sweeps (sweeps plan)) over_budget
                      ++ (violation_if (ltb plan.budgets.max_live_sessions (lives plan)) over_budget
                          ++ exit_violations (opens_position plan) plan.exit_policy)))))

  unfoldable pub web_trigger : AgentPlan Num → Bool
  web_trigger plan = is_trigger plan.goal_type && from_web plan.trigger_ref

  -- `step.requires_approval && plan.approval_gates.includes(step.step_id)`
  abbrev pub gated : AgentPlan Num → PlanStep → Bool
  gated plan step = step.requires_approval && includes plan.approval_gates step.step_id

  -- rules 1 to 5, the first that blocks
  unfoldable pub hard_rule : AgentPlan Num → Playbook → PlanStep → Option Code
  unfolding web_trigger
  hard_rule plan playbook step =
      if not (includes playbook.allowed_tools step.tool)
      then some tool_not_in_allowlist
      else if is_l0 plan.autonomy_level && is_mutating step.tool
      then some mutation_in_l0
      else if is_live_paper_start step.tool && below_l2 plan.autonomy_level
      then some live_paper_requires_l2
      else if is_publish step.tool && not (gated plan step)
      then some publish_requires_approval
      else if web_trigger plan && is_mutating step.tool
      then some web_trigger_no_trade
      else none

  -- a decision so far, with the code that gave it
  abbrev pub Verdict : Type 0
  Verdict = Decision × Option Code

  abbrev block : Code → Verdict
  block code = (blocked, some code)

  abbrev ask : Verdict
  ask = (needs_approval, some approval_required)

  abbrev pass : Verdict
  pass = (allow, none)

  -- the approval logic
  unfoldable pub approval : AgentPlan Num → Playbook → PlanStep → Verdict
  approval plan playbook step =
      if includes playbook.approval_required_tools step.tool
      then (if below_l2 plan.autonomy_level && not (gated plan step)
          then block approval_required
          else if gated plan step
          then ask
          else pass)
      else if step.requires_approval
      then (if not (includes plan.approval_gates step.step_id)
          then block approval_gate_not_declared
          else ask)
      else pass

  unfoldable pub first_verdict : AgentPlan Num → Playbook → PlanStep → Verdict
  unfolding hard_rule approval
  first_verdict plan playbook step = elim (hard_rule plan playbook step) [
    | some code ↦ block code
    | none ↦ approval plan playbook step
  ]

  abbrev pub is_blocked : Verdict → Bool
  is_blocked (blocked, code) = true
  is_blocked (allow, code) = false
  is_blocked (needs_approval, code) = false

  abbrev step_violation : PlanStep → Code → List Violation
  step_violation step code = record { code = code; step_id = some step.step_id } ∷ []

  -- what `block` adds for the first verdict
  abbrev pub verdict_violations : PlanStep → Verdict → List Violation
  verdict_violations step (blocked, some code) = step_violation step code
  verdict_violations step (blocked, none) = []
  verdict_violations step (allow, code) = []
  verdict_violations step (needs_approval, code) = []

  -- rule 6
  unfoldable pub toggles_silently : AgentPlan Num → PlanStep → Bool
  toggles_silently plan step =
      any (λ p. includes determinism_toggle_params p.key) step.params && is_blank plan.safety_notes

  abbrev after_toggles : Bool → Verdict → Verdict
  after_toggles false verdict = verdict
  after_toggles true verdict =
      if is_blocked verdict then verdict else block determinism_toggle_needs_notes

  abbrev pub toggle_violations : Bool → PlanStep → List Violation
  toggle_violations false step = []
  toggle_violations true step = step_violation step determinism_toggle_needs_notes

  -- rule 7: has the step a parameter that the tool does not know?
  unfoldable pub has_unknown_params : Option Resolver → PlanStep → Bool
  has_unknown_params none step = false
  has_unknown_params (some resolver) step = elim (resolver step.tool) [
    | none ↦ false
    | some known ↦ any (λ p. not (includes known p.key)) step.params
  ]

  unfoldable pub check_step :
      Option Resolver → AgentPlan Num → Playbook → PlanStep → StepDecision × List Violation
  unfolding first_verdict toggles_silently has_unknown_params
  check_step resolver plan playbook step =
      let verdict = first_verdict plan playbook step in
      let silent = toggles_silently plan step in
      let (decision, reason) = after_toggles silent verdict in
      let found = verdict_violations step verdict ++ toggle_violations silent step in
      if not (is_blocked (decision, reason)) && has_unknown_params resolver step
      then (
        record {
          step_id = step.step_id;
          tool = step.tool;
          decision = blocked;
          reason = some invalid_tool_params;
        },
        found ++ step_violation step invalid_tool_params,
      )
      else (
        record { step_id = step.step_id; tool = step.tool; decision = decision; reason = reason },
        found,
      )

  unfoldable pub check_steps :
      Option Resolver
      → AgentPlan Num
      → Playbook
      → List PlanStep
      → List StepDecision × List Violation
  check_steps resolver plan playbook [] = ([], [])
  check_steps resolver plan playbook (s ∷ ss) =
      let (decision, found) = check_step resolver plan playbook s in
      let (decisions, violations) = check_steps resolver plan playbook ss in
      (decision ∷ decisions, found ++ violations)

  abbrev pub is_empty : List Violation → Bool
  is_empty [] = true
  is_empty (v ∷ vs) = false

  unfoldable pub validate_in : Option Resolver → AgentPlan Num → Option Playbook → GuardrailResult
  unfolding plan_violations
  validate_in resolver plan none = record {
    ok = false;
    decisions = [];
    violations = violation_if true unknown_playbook;
  }
  validate_in resolver plan (some playbook) =
      let (decisions, found) = check_steps resolver plan playbook plan.steps in
      let violations = plan_violations plan playbook ++ found in
      record { ok = is_empty violations; decisions = decisions; violations = violations }

  unfoldable pub validate_plan : Option Resolver → AgentPlan Num → GuardrailResult
  unfolding validate_in
  validate_plan resolver plan = validate_in resolver plan (get_playbook plan.playbook_id)
