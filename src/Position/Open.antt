-- ===== src/Position/Open.antt =====
-- positions/open.ts: `openManagedPosition`. What other services do is in `OpenEnv`; the session id that
-- `extractSessionId` finds in the stored result of the step is an argument.
use arivion.Prelude.{ℕ, String, Bool, true, false, not, Option, none, some, List, [], if◌then◌else◌}
use Prim.Native.String.{◌++◌ as str_append}
use arivion.Exit.Real.{Real}
use arivion.Exit.Policy.{ExitPolicy, PolicyFault, validate_exit_policy, Side, long}
use arivion.Guard.Plan.{AutonomyLevel, PlanStep}
use arivion.Risk.Breakers.{RiskState}
use arivion.Risk.Status.{Settings, is_normal, get_risk_state}
use arivion.Budget.{BudgetEvent, record_budget_event}
use arivion.Run.Store.{RunStatus, RunDb, create_run}
use arivion.Run.Runner.{Reply, RunOutcome, RunReason, ExecuteOptions, execute_plan}
use arivion.Position.Plans.{Limits, build_open_position_plan, or_l2}
use arivion.Position.Store.{PositionIntent, PositionDb, open_intent}

pub record OpenManagedInput (N : Type 0) : Type 0 where
  pub owner_id : ℕ
  pub thread_id : String
  pub bot_id : String
  pub symbol : String
  pub category : String
  pub side : Option Side
  pub entry_price : N
  pub exit_policy : ExitPolicy N
  pub atr : Option N
  pub autonomy : Option AutonomyLevel

pub data OpenReason : Type 0 where
  autonomy_below_l2 : OpenReason
  risk : RiskState → OpenReason
  policy : PolicyFault → OpenReason
  pending : Option String → OpenReason
  outcome : Option RunReason → OpenReason

pub data OpenStatus : Type 0 where
  was_opened awaiting_approval blocked : OpenStatus

pub record OpenManagedResult (N : Type 0) : Type 0 where
  pub status : OpenStatus
  pub run_id : String
  pub intent : Option (PositionIntent N)
  pub reason : Option OpenReason

pub record OpenWorld (N : Type 0) : Type 0 where
  pub positions : PositionDb N
  pub runs : RunDb
  pub settings : Settings
  pub budget : List BudgetEvent

-- `connects` says whether `connectMcp` returns, `recorded` whether the budget event is written.
pub record OpenEnv (N : Type 0) : Type 0 where
  pub now : ℕ
  pub connects : Bool
  pub plan_id : String
  pub fresh_id : String
  pub position_id : String
  pub call_tool : ℕ → PlanStep → Reply N
  pub cost : ℕ
  pub coverage_floor : N
  pub limits : Limits
  pub session_id : Option String
  pub recorded : Bool

abbrev pub is_l2 : Option AutonomyLevel → Bool
is_l2 none = true
is_l2 (some AutonomyLevel.l2) = true
is_l2 (some AutonomyLevel.l0) = false
is_l2 (some AutonomyLevel.l1) = false
is_l2 (some AutonomyLevel.l1_5_shadow) = false
is_l2 (some AutonomyLevel.l3) = false

module _ (R : Real) where
  open R use {Num}

  -- a gate's refusal, with its run
  abbrev refuse :
      OpenEnv Num
      → OpenManagedInput Num
      → OpenReason
      → OpenWorld Num
      → OpenManagedResult Num × OpenWorld Num
  refuse env input reason w = (
    record { status = blocked; run_id = env.fresh_id; intent = none; reason = some reason },
    record w {
      runs =
          create_run env.fresh_id input.owner_id input.thread_id (some "open_managed_position")
            w.runs;
    },
  )

  abbrev pub open_options : OpenEnv Num → OpenManagedInput Num → ExecuteOptions Num
  open_options env input = record {
    plan = build_open_position_plan env.limits (record {
      plan_id = env.plan_id;
      owner_id = input.owner_id;
      thread_id = input.thread_id;
      symbol = input.symbol;
      category = input.category;
      exit_policy = input.exit_policy;
      autonomy = some (or_l2 input.autonomy);
    });
    call_tool = env.call_tool;
    approvals = [];
    run_id = some env.fresh_id;
    fresh_id = "";
    cost = env.cost;
    coverage_floor = env.coverage_floor;
  }

  abbrev pub or_long : Option Side → Side
  or_long none = long
  or_long (some side) = side

  -- `openIntent`, once the run is completed
  abbrev pub bind :
      OpenEnv Num → OpenManagedInput Num → PositionDb Num → PositionIntent Num × PositionDb Num
  bind env input db =
      open_intent R env.position_id env.now
        (record {
          owner_id = input.owner_id;
          run_id = some env.fresh_id;
          session_id = env.session_id;
          bot_id = some input.bot_id;
          symbol = input.symbol;
          category = input.category;
          side = or_long input.side;
          entry_price = input.entry_price;
          policy = input.exit_policy;
          atr = input.atr;
        })
        db

  -- what follows the run of the entry plan
  unfoldable pub after_entry :
      OpenEnv Num
      → OpenManagedInput Num
      → RunOutcome Num
      → OpenWorld Num
      → RunStatus
      → OpenManagedResult Num × OpenWorld Num
  unfolding open_intent record_budget_event
  after_entry env input out w RunStatus.awaiting_approval = (
    record {
      status = awaiting_approval;
      run_id = env.fresh_id;
      intent = none;
      reason = some (pending out.pending_step_id);
    },
    w,
  )
  after_entry env input out w RunStatus.completed =
      let (intent, positions) = bind env input w.positions in
      (
        record { status = was_opened; run_id = env.fresh_id; intent = some intent; reason = none },
        record w {
          positions = positions;
          budget =
              if env.recorded
              then record_budget_event env.now input.owner_id "live_session" (some env.fresh_id)
                  (some (str_append "open_managed_position " input.symbol)) 1 w.budget
              else w.budget;
        },
      )
  after_entry env input out w _ = (
    record {
      status = blocked;
      run_id = env.fresh_id;
      intent = none;
      reason = some (outcome out.reason);
    },
    w,
  )

  -- the run of the entry plan; none where `connectMcp` throws
  unfoldable pub enter :
      OpenEnv Num
      → OpenManagedInput Num
      → OpenWorld Num
      → Option (OpenManagedResult Num) × OpenWorld Num
  unfolding after_entry
  enter env input w =
      let runs =
        create_run env.fresh_id input.owner_id input.thread_id (some "open_managed_position")
          w.runs in
      let (out, runs') = execute_plan R (open_options env input) runs in
      let (result, w') = after_entry env input out (record w { runs = runs' }) out.status in
      if env.connects then (some result, w') else (none, record w { runs = runs })

  -- `openManagedPosition`
  unfoldable pub open_managed_position :
      OpenEnv Num
      → OpenManagedInput Num
      → OpenWorld Num
      → Option (OpenManagedResult Num) × OpenWorld Num
  unfolding enter get_risk_state
  open_managed_position env input w =
      let (status, settings) = get_risk_state env.now input.owner_id w.settings in
      let (refused, w0) = refuse env input autonomy_below_l2 w in
      let w' = record w { settings = settings } in
      let (averse, w1) = refuse env input (risk status.state) w' in
      let entered = enter env input w' in
      if not (is_l2 input.autonomy)
      then (some refused, w0)
      else if not (is_normal status.state)
      then (some averse, w1)
      else elim (validate_exit_policy R input.exit_policy) [
        | some fault ↦ let (naked, w2) = refuse env input (policy fault) w' in (some naked, w2)
        | none ↦ entered
      ]
