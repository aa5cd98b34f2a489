-- ===== src/Examples/Position.antt =====
-- The theorems of managed positions, at a long position whose session is stopped at 95.
use arivion.Prelude.{
  ◌≤◌, ℤ, pos, String, ◌≡◌, ◌≢◌, refl, false, true, none, some, [], ◌∷◌, ◌++◌, str_eq, Bool-cases,
  inl, inr,
}
use arivion.Exit.Policy.{Side, validate_exit_policy}
use arivion.Guard.Playbooks.{get_playbook}
use arivion.Guard.Tools.{
  is_publish, is_managed_entry, backtest_tools, optimizer_tools, is_live_paper_start,
  determinism_toggle_params,
}
use arivion.Guard.Validate.{validate_plan, check_steps, check_step}
use arivion.Risk.Breakers.{RiskConfig}
use arivion.Risk.Status.{get_risk_state}
use arivion.Run.Store.{set_status, create_run, finish_run, request_approval}
use arivion.Run.Honesty.{merge_honesty, has_hard_blocks, coverage_value, find_key}
use arivion.Run.Runner.{
  execute_plan, run_guarded, run_steps, after_reply, finish_blocked, decision_by_step,
}
use arivion.Position.Plans.{Limits, build_open_position_plan, stop_step}
use arivion.Position.Store.{
  opened, closing, closed, PositionIntent, PositionDb, put_row, claim_for_closing, update_runtime,
}
use arivion.Position.Steps.{System, Step, Steps, advances, stop, step, wins, holders, state_of}
use arivion.Position.Race.{IsExclusive}
use arivion.Position.Lifecycle.{Life, step_refines, one_exit_at_a_time, closed_for_good}
use arivion.Position.Monitor.{World, ExitEnv, exit_options, evaluate_intent}
use arivion.Position.Exits.{exit_status, exit_calls_stop}
use arivion.Position.Sweep.{sweep_open_positions}
use arivion.Position.Sweeps.{sweep_leaves_none_closing}
use arivion.Position.Ticks.{evaluate_intent-Steps}
use arivion.Position.Stops.{LeavesStop, stored_stop_never_loosens}
use arivion.Position.Open.{
  OpenManagedInput, OpenManagedResult, OpenWorld, OpenEnv, open_managed_position, after_entry,
  enter, bind, OpenStatus,
}
use arivion.Position.Entries.{IsCleared, opened_position-IsCleared}
use arivion.Examples.Fixed.{thousandths}
use arivion.Examples.Exit.{policy}
use arivion.Examples.Run.{no_rows, fine}

abbrev pub limits : Limits
limits = record { max_output_tokens_per_step = 1000; max_cost_per_run = 100_000 }

-- entered at 100, with the stop at 95
abbrev held_position : PositionIntent ℤ
held_position = record {
  id = "pos_1";
  owner_id = 1;
  run_id = none;
  session_id = some "s";
  bot_id = none;
  symbol = "BTCUSDT";
  category = "linear";
  side = Side.long;
  entry_price = pos 100_000;
  exit_policy = policy;
  runtime = record {
    high_water = pos 100_000;
    low_water = pos 100_000;
    cleared_tiers = [];
    current_stop_price = some (pos 95_000);
  };
  state = opened;
  close_reason = none;
  last_mark = none;
  realized_return = none;
  opened_at = 0;
  time_exit_at = none;
  closed_at = none;
}

abbrev no_positions : PositionDb ℤ
no_positions = record { ids = []; row = λ id. none; events = [] }

abbrev one_position : PositionDb ℤ
one_position = record (put_row "pos_1" held_position no_positions) { ids = "pos_1" ∷ [] }

abbrev risk_config : RiskConfig ℤ
risk_config = record {
  halt_drawdown_pct = pos 300;
  halt_consecutive_losses = 5;
  averse_cvar_pct = pos 100;
  averse_consecutive_losses = 3;
  cooldown_seconds = 60;
  tail_of = λ n. 1;
  of_count = λ n. pos 1000;
}

abbrev env : ExitEnv ℤ
env = record {
  thread = some "t";
  plan_id = "p";
  fresh_id = "run_1";
  call_tool = λ n step. fine;
  cost = 0;
  coverage_floor = pos 900;
  limits = limits;
  event_written = true;
  risk = risk_config;
  closed_at = 1;
  read_at = 1;
  write_at = 1;
  return_at = 1;
}

exit_calls_stop_example :
    ((execute_plan thousandths (exit_options thousandths env held_position "t") no_rows).1.calls
      ≡ [] ++ stop_step ∷ [])
    × ((execute_plan thousandths (exit_options thousandths env held_position "t") no_rows).0.status
        ≡ exit_status thousandths fine)
exit_calls_stop_example = exit_calls_stop thousandths env held_position "t" no_rows refl

abbrev world : World ℤ
world = record { positions = one_position; runs = no_rows; settings = λ o. none; episodes = [] }

evaluate_intent-Steps_example :
    Steps ℤ
      (record { db = one_position; held = [] })
      (record {
        db = (evaluate_intent thousandths env held_position (pos 94_000) 5 world).1.positions;
        held = [];
      })
evaluate_intent-Steps_example =
    evaluate_intent-Steps thousandths env held_position (pos 94_000) 5 world []

stored_stop_never_loosens_example :
    LeavesStop thousandths held_position
      (pos 95_000)
      (evaluate_intent thousandths env held_position (pos 120_000) 5 world).1.positions
stored_stop_never_loosens_example =
    stored_stop_never_loosens thousandths env held_position (pos 120_000) (pos 95_000) 5 world refl
      refl refl

-- nobody holds the position yet
abbrev idle : System ℤ
idle = record { db = one_position; held = [] }

idle-IsExclusive : IsExclusive ℤ idle
unfolding IsExclusive
idle-IsExclusive id = elim (Bool-cases (str_eq id "pos_1")) [
  | inl same ↦ rw same refl
  | inr other ↦ rw other refl
]

abbrev claimed : System ℤ
claimed = record { db = (claim_for_closing "pos_1" one_position).1; held = "pos_1" ∷ [] }

wins_claim : Step ℤ idle claimed
unfolding claim_for_closing
wins_claim = wins "pos_1" one_position [] refl

-- a tick claims the position
claim_run : Steps ℤ idle claimed
claim_run = step idle claimed claimed wins_claim (stop claimed)

step_refines_example : Life (state_of "pos_1" idle.db) (state_of "pos_1" claimed.db)
step_refines_example = step_refines ℤ idle claimed "pos_1" idle-IsExclusive wins_claim

one_exit_at_a_time_example : holders "pos_1" claimed.held ≤ 1
one_exit_at_a_time_example = one_exit_at_a_time ℤ idle claimed "pos_1" idle-IsExclusive claim_run

-- the position is closed, and a late tick still writes its runtime
abbrev closed_table : PositionDb ℤ
closed_table = put_row "pos_1" (record held_position { state = closed }) no_positions

abbrev after_exit : System ℤ
after_exit = record { db = closed_table; held = [] }

abbrev written_late : System ℤ
written_late = record {
  db = update_runtime "pos_1" held_position.runtime (pos 94_000) closed_table;
  held = [];
}

after_exit-IsExclusive : IsExclusive ℤ after_exit
unfolding IsExclusive
after_exit-IsExclusive id = elim (Bool-cases (str_eq id "pos_1")) [
  | inl same ↦ rw same refl
  | inr other ↦ rw other refl
]

closed_for_good_example : state_of "pos_1" written_late.db ≡ some closed
closed_for_good_example =
    closed_for_good ℤ after_exit written_late "pos_1" after_exit-IsExclusive
      (step after_exit written_late written_late
        (advances "pos_1" held_position.runtime (pos 94_000) closed_table []) (stop written_late))
      refl

abbrev request : OpenManagedInput ℤ
request = record {
  owner_id = 1;
  thread_id = "t";
  bot_id = "b";
  symbol = "BTCUSDT";
  category = "linear";
  side = none;
  entry_price = pos 100_000;
  exit_policy = policy;
  atr = none;
  autonomy = none;
}

abbrev open_env : OpenEnv ℤ
open_env = record {
  now = 7;
  connects = true;
  plan_id = "p";
  fresh_id = "run_2";
  position_id = "pos_2";
  call_tool = λ n step. fine;
  cost = 0;
  coverage_floor = pos 900;
  limits = limits;
  session_id = some "s";
  recorded = true;
}

abbrev open_world : OpenWorld ℤ
open_world = record { positions = one_position; runs = no_rows; settings = λ o. none; budget = [] }

abbrev opened_result : OpenManagedResult ℤ
opened_result = record {
  status = OpenStatus.was_opened;
  run_id = "run_2";
  intent = some (bind thousandths open_env request one_position).0;
  reason = none;
}

opens_position :
    (open_managed_position thousandths open_env request open_world).0 ≡ some opened_result
unfolding open_managed_position enter after_entry get_risk_state execute_plan run_guarded run_steps
    after_reply finish_blocked decision_by_step validate_plan get_playbook backtest_tools
    optimizer_tools is_live_paper_start is_managed_entry build_open_position_plan
    validate_exit_policy check_steps check_step determinism_toggle_params is_publish set_status
    create_run finish_run request_approval merge_honesty has_hard_blocks coverage_value find_key
opens_position = refl

opened_position-IsCleared_example :
    IsCleared thousandths open_env request open_world
      (open_managed_position thousandths open_env request open_world).1
opened_position-IsCleared_example =
    opened_position-IsCleared thousandths open_env request open_world opened_result (λ id. refl)
      opens_position refl

one_open : (k : String) → state_of k one_position ≢ some closing
one_open k = elim (Bool-cases (str_eq k "pos_1")) [
  | inl same ↦ rw same (λ e. cc)
  | inr other ↦ rw other (λ e. cc)
]

sweep_leaves_none_closing_example :
    state_of "pos_1" (sweep_open_positions thousandths false (λ i. env) 9_000_000 world).1.positions
    ≢ some closing
sweep_leaves_none_closing_example =
    sweep_leaves_none_closing thousandths false (λ i. env) 9_000_000 world "pos_1" one_open
