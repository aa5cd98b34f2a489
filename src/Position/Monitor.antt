-- ===== src/Position/Monitor.antt =====
-- positions/monitor.ts: one evaluation of a managed position, and the loops over the open positions.
-- What other services do is in `ExitEnv`; a thread's row and an episode's text are left out.
use arivion.Prelude.{
  ℕ, String, Bool, true, false, Option, none, some, List, [], ◌∷◌, ◌++◌, take, if◌then◌else◌,
}
use mathlib.Core.Option
use arivion.Exit.Real.{Real}
use arivion.Exit.Policy.{PositionView, ExitReason, Action, hold, reduce, close, ExitDecision}
use arivion.Exit.Evaluate.{evaluate_exit}
use arivion.Guard.Plan.{PlanStep}
use arivion.Risk.Breakers.{RiskConfig}
use arivion.Risk.Status.{Settings, refresh_risk_state}
use arivion.Run.Store.{RunStatus, RunDb}
use arivion.Run.Runner.{Reply, RunOutcome, ExecuteOptions, execute_plan}
use arivion.Position.Plans.{Limits, build_close_position_plan}
use arivion.Position.Store.{
  PositionIntent, PositionEvent, PositionDb, claim_for_closing, filled, mark_closed,
  record_position_event, release_claim, update_runtime, closed_returns,
}

pub record TickResult : Type 0 where
  pub intent_id : String
  pub action : Action
  pub reason : Option String
  pub run_id : Option String
  pub closed : Option Bool

-- what `writeEpisode` is given of a closed position
pub record Episode (N : Type 0) : Type 0 where
  pub owner_id : ℕ
  pub intent_id : String
  pub reward : N

pub record World (N : Type 0) : Type 0 where
  pub positions : PositionDb N
  pub runs : RunDb
  pub settings : Settings
  pub episodes : List (Episode N)

-- Of one exit: what `connectMcp` and `createThread` give (none if one throws), the ids and the tools'
-- replies of its run, whether the closing event is written, and the times at which the clock is read.
pub record ExitEnv (N : Type 0) : Type 0 where
  pub thread : Option String
  pub plan_id : String
  pub fresh_id : String
  pub call_tool : ℕ → PlanStep → Reply N
  pub cost : ℕ
  pub coverage_floor : N
  pub limits : Limits
  pub event_written : Bool
  pub risk : RiskConfig N
  pub closed_at : ℕ
  pub read_at : ℕ
  pub write_at : ℕ
  pub return_at : ℕ

abbrev reason_text : ExitReason → String
reason_text ExitReason.stop_loss = "stop_loss"
reason_text ExitReason.trailing_stop = "trailing_stop"
reason_text ExitReason.take_profit = "take_profit"
reason_text ExitReason.take_profit_final = "take_profit_final"
reason_text ExitReason.time_exit = "time_exit"
reason_text ExitReason.max_loss = "max_loss"

-- `decision.reason ?? fallback`
abbrev pub reason_or : Option ExitReason → String → String
reason_or none fallback = fallback
reason_or (some r) fallback = reason_text r

abbrev hold_result : String → TickResult
hold_result id = record {
  intent_id = id;
  action = hold;
  reason = none;
  run_id = none;
  closed = none;
}

-- does the outcome count as an exit?
abbrev pub is_exit : RunStatus → Bool
is_exit RunStatus.completed = true
is_exit RunStatus.blocked = true
is_exit RunStatus.running = false
is_exit RunStatus.proposed = false
is_exit RunStatus.awaiting_approval = false
is_exit RunStatus.error = false

module _ (R : Real) where
  open R use {Num, one}

  -- `toView`, which leaves `atr` out
  abbrev pub to_view : PositionIntent Num → PositionView Num
  to_view intent = record {
    side = intent.side;
    entry_price = intent.entry_price;
    opened_at_ms = intent.opened_at;
    policy = intent.exit_policy;
    runtime = intent.runtime;
    atr = none;
  }

  -- the options of the exit's run
  abbrev pub exit_options : ExitEnv Num → PositionIntent Num → String → ExecuteOptions Num
  exit_options env intent thread = record {
    plan = build_close_position_plan env.limits (record {
      plan_id = env.plan_id;
      owner_id = intent.owner_id;
      thread_id = thread;
      symbol = some intent.symbol;
      category = some intent.category;
    });
    call_tool = env.call_tool;
    approvals = [];
    run_id = none;
    fresh_id = env.fresh_id;
    cost = env.cost;
    coverage_floor = env.coverage_floor;
  }

  abbrev put_positions : PositionDb Num → World Num → World Num
  put_positions db w = record w { positions = db }

  -- a result of an exit
  abbrev close_result : PositionIntent Num → ExitDecision Num → Option String → Bool → TickResult
  close_result intent d run closed = record {
    intent_id = intent.id;
    action = close;
    reason = Option.map reason_text d.reason;
    run_id = run;
    closed = some closed;
  }

  -- the claim is given back, and the next tick tries again
  abbrev pub retry_later :
      PositionIntent Num → ExitDecision Num → Option String → World Num → TickResult × World Num
  retry_later intent d run w =
      (close_result intent d run false, put_positions (release_claim intent.id w.positions) w)

  abbrev pub close_event :
      PositionIntent Num → Num → ExitDecision Num → Option String → PositionEvent Num
  close_event intent mark d run = record {
    intent_id = intent.id;
    owner_id = intent.owner_id;
    action = "close";
    reason = reason_or d.reason "close";
    mark = mark;
    fraction = some one;
    unrealized = some d.unrealized;
    run_id = run;
  }

  -- what follows `markClosed`: the event, the episode and the risk state
  unfoldable pub after_closed :
      ExitEnv Num
      → PositionIntent Num
      → Num
      → ExitDecision Num
      → Option String
      → World Num
      → TickResult × World Num
  after_closed env intent mark d run w =
      let db = record_position_event (close_event intent mark d run) w.positions in
      let episode : Episode Num = record {
        owner_id = intent.owner_id;
        intent_id = intent.id;
        reward = d.unrealized;
      } in
      let (status, settings) =
        refresh_risk_state R env.risk (take 30 (closed_returns intent.owner_id db)) env.read_at
          env.write_at env.return_at intent.owner_id w.settings in
      if env.event_written
      then (
        close_result intent d run true,
        record w { positions = db; settings = settings; episodes = w.episodes ++ episode ∷ [] },
      )
      else retry_later intent d none w

  abbrev pub close_row :
      ExitEnv Num
      → PositionIntent Num
      → Num
      → ExitDecision Num
      → Option String
      → World Num
      → World Num
  close_row env intent mark d run w =
      put_positions
        (mark_closed env.closed_at intent.id (reason_or d.reason "close") mark d.unrealized run
          w.positions)
        w

  -- the outcome of the exit's run
  unfoldable pub after_run :
      ExitEnv Num
      → PositionIntent Num
      → Num
      → ExitDecision Num
      → RunOutcome Num
      → World Num
      → TickResult × World Num
  unfolding after_closed
  after_run env intent mark d outcome w =
      if is_exit outcome.status
      then after_closed env intent mark d (some outcome.run_id)
          (close_row env intent mark d (some outcome.run_id) w)
      else retry_later intent d (some outcome.run_id) w

  -- the exit, once the position is claimed
  unfoldable pub exit_claimed :
      ExitEnv Num → PositionIntent Num → Num → ExitDecision Num → World Num → TickResult × World Num
  unfolding after_run after_closed
  exit_claimed env intent mark d w = elim (filled intent.session_id) [
    | none ↦ after_closed env intent mark d none (close_row env intent mark d none w)
    | some session ↦ elim env.thread [
      | none ↦ retry_later intent d none w
      | some thread ↦
          let (outcome, runs) = execute_plan R (exit_options env intent thread) w.runs in
          after_run env intent mark d outcome (record w { runs = runs })
    ]
  ]

  abbrev pub reduce_event : PositionIntent Num → Num → ExitDecision Num → PositionEvent Num
  reduce_event intent mark d = record {
    intent_id = intent.id;
    owner_id = intent.owner_id;
    action = "reduce";
    reason = reason_or d.reason "take_profit";
    mark = mark;
    fraction = d.fraction;
    unrealized = some d.unrealized;
    run_id = none;
  }

  unfoldable pub act :
      ExitEnv Num
      → PositionIntent Num
      → Num
      → ExitDecision Num
      → Action
      → World Num
      → TickResult × World Num
  unfolding exit_claimed
  act env intent mark d hold w = (
    hold_result intent.id,
    put_positions (update_runtime intent.id d.next_runtime mark w.positions) w,
  )
  act env intent mark d reduce w = (
    record {
      intent_id = intent.id;
      action = reduce;
      reason = Option.map reason_text d.reason;
      run_id = none;
      closed = none;
    },
    put_positions
        (record_position_event (reduce_event intent mark d)
          (update_runtime intent.id d.next_runtime mark w.positions))
        w,
  )
  act env intent mark d close w =
      let (won, db) = claim_for_closing intent.id w.positions in
      if won
      then exit_claimed env intent mark d (put_positions db w)
      else (hold_result intent.id, put_positions db w)

  -- `evaluateIntent`; where `evaluateExit` throws, its callers report a hold and nothing is changed
  unfoldable pub evaluate_intent :
      ExitEnv Num → PositionIntent Num → Num → ℕ → World Num → TickResult × World Num
  unfolding act
  evaluate_intent env intent mark now w = elim (evaluate_exit R (to_view intent) mark now) [
    | none ↦ (hold_result intent.id, w)
    | some d ↦ act env intent mark d d.action w
  ]
