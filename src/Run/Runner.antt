-- ===== src/Run/Runner.antt =====
-- orchestrator/runner.ts: `executePlan`. What a tool replies is a function of the calls made so far
-- and of the step, so every sequence of replies is covered. The parameters that a call is made with,
-- messages and events are left out; `cost` is what `getRunUsage` sums up.
use arivion.Prelude.{
  ℕ, String, Bool, true, false, not, ◌&&◌, Option, none, some, List, [], ◌∷◌, ◌++◌, length,
  includes, str_eq, if◌then◌else◌,
}
use arivion.Exit.Real
use arivion.Exit.Real.{Real}
use arivion.Guard.Plan.{PlanStep, AgentPlan}
use arivion.Guard.Validate.{
  Decision, allow, needs_approval, blocked, Code, Violation, StepDecision, GuardrailResult, is_l0,
  validate_plan,
}
use arivion.Run.Honesty.{Honesty, ToolResult, merge_honesty, coverage_value, has_hard_blocks}
use arivion.Run.Store.{
  RunStatus, StepState, RunDb, create_run, finish_run, add_step, request_approval, is_done,
}

-- `callTool` throws, or returns.
pub data Reply (N : Type 0) : Type 0 where
  throws : Reply N
  returns : ToolResult N → Reply N

pub data RunReason : Type 0 where
  guardrail : Option Code → RunReason
  tool_error tool_result_error risk_hard_block coverage_below_floor : RunReason

-- `honesty` is what the truth card is built from, if there is one.
pub record RunOutcome (N : Type 0) : Type 0 where
  pub run_id : String
  pub status : RunStatus
  pub pending_step_id : Option String
  pub reason : Option RunReason
  pub honesty : Option (Honesty N)

pub record ExecuteOptions (N : Type 0) : Type 0 where
  pub plan : AgentPlan N
  pub call_tool : ℕ → PlanStep → Reply N
  pub approvals : List String
  pub run_id : Option String
  -- the id of a run that is created
  pub fresh_id : String
  pub cost : ℕ
  -- `COVERAGE_FLOOR`, the literal 0.9
  pub coverage_floor : N

-- `decisionByStep.get`: of two decisions for one id the later is kept
unfoldable pub decision_by_step : List StepDecision → String → Option Decision
decision_by_step [] id = none
decision_by_step (d ∷ ds) id =
    let rest = decision_by_step ds id in
    elim rest [
      | some later ↦ some later
      | none ↦ if str_eq d.step_id id then some d.decision else none
    ]

abbrev pub is_needs_approval : Option Decision → Bool
is_needs_approval (some needs_approval) = true
is_needs_approval (some allow) = false
is_needs_approval (some blocked) = false
is_needs_approval none = false

-- must the step wait for an approval?
abbrev pub must_wait : List StepDecision → List String → PlanStep → Bool
must_wait decisions approvals step =
    is_needs_approval (decision_by_step decisions step.step_id)
    && not (includes approvals step.step_id)

abbrev first_code : List Violation → Option Code
first_code [] = none
first_code (v ∷ vs) = some v.code

abbrev stop_with : {N : Type 0} → String → RunStatus → RunReason → Option (Honesty N) → RunOutcome N
stop_with run status reason honesty = record {
  run_id = run;
  status = status;
  pending_step_id = none;
  reason = some reason;
  honesty = honesty;
}

module _ (R : Real) where
  open R use {Num, le}

  abbrev pub below_floor : Num → Option Num → Bool
  below_floor floor none = false
  below_floor floor (some coverage) = Real.lt R coverage floor

  module _ (opts : ExecuteOptions Num) (owner : ℕ) (run : String) where
    -- `finishBlocked`
    unfoldable pub finish_blocked : RunReason → Honesty Num → RunDb → RunOutcome Num × RunDb
    finish_blocked reason honesty db = (
      stop_with run RunStatus.blocked reason (some honesty),
      finish_run run RunStatus.blocked 0 (add_step owner run "stop" StepState.blocked none db),
    )

    -- what follows the reply to a call, where `rest` runs the steps after it
    unfoldable pub after_reply :
        (Honesty Num → RunDb → RunOutcome Num × RunDb)
        → PlanStep
        → Reply Num
        → Honesty Num
        → RunDb
        → RunOutcome Num × RunDb
    unfolding finish_blocked
    after_reply rest step throws honesty db = (
      stop_with run RunStatus.error tool_error none,
      finish_run run RunStatus.error 0
          (add_step owner run step.step_id StepState.error (some step.tool) db),
    )
    after_reply rest step (returns result) honesty db =
        let honesty' = merge_honesty honesty result.honesty in
        let state = if result.is_error then StepState.error else StepState.completed in
        let db' = add_step owner run step.step_id state (some step.tool) db in
        if result.is_error
        then (
          stop_with run RunStatus.error tool_result_error none,
          finish_run run RunStatus.error 0 db',
        )
        else if has_hard_blocks result.honesty
        then finish_blocked risk_hard_block honesty' db'
        else if str_eq step.tool "data_coverage"
            && below_floor opts.coverage_floor (coverage_value result.honesty)
        then finish_blocked coverage_below_floor honesty' db'
        else rest honesty' db'

    abbrev pause : PlanStep → RunDb → RunOutcome Num × RunDb
    pause step db = (
      record {
        run_id = run;
        status = RunStatus.awaiting_approval;
        pending_step_id = some step.step_id;
        reason = none;
        honesty = none;
      },
      request_approval owner run step
          (add_step owner run step.step_id StepState.awaiting_approval (some step.tool) db),
    )

    abbrev pub call : PlanStep → RunDb → RunDb
    call step db = record db { calls = db.calls ++ step ∷ [] }

    -- the loop; `done` says which steps were completed before
    unfoldable pub run_steps :
        List StepDecision
        → (String → Bool)
        → List PlanStep
        → Honesty Num
        → RunDb
        → RunOutcome Num × RunDb
    unfolding after_reply
    run_steps decisions done [] honesty db = (
      record {
        run_id = run;
        status = RunStatus.completed;
        pending_step_id = none;
        reason = none;
        honesty = some honesty;
      },
      finish_run run RunStatus.completed opts.cost db,
    )
    run_steps decisions done (step ∷ steps) honesty db =
        let rest = run_steps decisions done steps in
        if done step.step_id
        then rest honesty db
        else if must_wait decisions opts.approvals step
        then pause step db
        else after_reply rest step (opts.call_tool (length db.calls) step) honesty (call step db)

    -- after the guardrails' verdict
    unfoldable pub run_guarded : GuardrailResult → RunDb → RunOutcome Num × RunDb
    unfolding run_steps
    run_guarded guard db =
        if is_l0 opts.plan.autonomy_level
        then (
          record {
            run_id = run;
            status = RunStatus.proposed;
            pending_step_id = none;
            reason = none;
            honesty = none;
          },
          finish_run run RunStatus.proposed 0 db,
        )
        else if not guard.ok
        then (
          stop_with run RunStatus.blocked (guardrail (first_code guard.violations)) none,
          finish_run run RunStatus.blocked 0
              (add_step owner run "guardrail" StepState.blocked none db),
        )
        else run_steps guard.decisions (is_done owner run db.steps) opts.plan.steps [] db

  -- the run that is resumed, or the one that is created
  abbrev pub run_of : ExecuteOptions Num → String
  run_of opts = elim opts.run_id [ none ↦ opts.fresh_id | some id ↦ id ]

  abbrev pub open_run : ExecuteOptions Num → RunDb → RunDb
  open_run opts db = elim opts.run_id [
    | none ↦
        create_run opts.fresh_id opts.plan.owner_id opts.plan.thread_id (some opts.plan.playbook_id)
          db
    | some id ↦ db
  ]

  unfoldable pub execute_plan : ExecuteOptions Num → RunDb → RunOutcome Num × RunDb
  unfolding run_guarded
  execute_plan opts db =
      run_guarded opts opts.plan.owner_id (run_of opts) (validate_plan R none opts.plan)
        (open_run opts db)
