-- ===== src/Guard/Tools.antt =====
-- playbooks/toolClasses.ts: the tools by what they do, and the parameters that change determinism.
use arivion.Prelude.{String, Bool, List, [], ◌∷◌, includes}

unfoldable mutating_tools : List String
mutating_tools =
    "create_bot_spec" ∷ "run_bot_backtest" ∷ "run_bot_paper" ∷ "create_strategy"
    ∷ "create_strategy_version" ∷ "run_backtest" ∷ "run_paper_runtime" ∷ "run_portfolio"
    ∷ "optimizer_run" ∷ "optimizer_sweep" ∷ "start_live_paper" ∷ "stop_live_paper"
    ∷ "create_paper_account" ∷ "create_paper_session" ∷ "paper_rebuild" ∷ "paper_stop"
    ∷ "paper_tick" ∷ "start_multiasset_paper" ∷ "stop_multiasset_paper" ∷ "ensure_candles"
    ∷ "backfill_job" ∷ "backfill_schedule_create" ∷ "backfill_schedules_run_due"
    ∷ "collect_backfill_kline" ∷ "collect_backfill_index_kline" ∷ "collect_backfill_mark_kline"
    ∷ "collect_backfill_l2_archive" ∷ "collect_funding" ∷ "collect_instruments" ∷ "collect_oi"
    ∷ "collect_long_short" ∷ "collect_record_l2" ∷ "collect_record_trades" ∷ "record_l2"
    ∷ "record_trades" ∷ "live_subscribe" ∷ "collect_live_subscribe" ∷ "collect_ws_subscribe"
    ∷ "collect_live_unsubscribe" ∷ "marketplace_publish" ∷ "marketplace_fork" ∷ "publish_passport"
    ∷ "sandbox_execute" ∷ "prepare_testnet_intent" ∷ "execute_stock_buy" ∷ "execute_lp"
    ∷ "execute_swap" ∷ "execute_bridge" ∷ "launch_plan" ∷ "record_testnet_intent_submission" ∷ []

unfoldable live_paper_start_tools : List String
live_paper_start_tools =
    "start_live_paper" ∷ "run_bot_paper" ∷ "create_paper_session" ∷ "run_paper_runtime"
    ∷ "start_multiasset_paper" ∷ []

unfoldable publish_tools : List String
publish_tools = "marketplace_publish" ∷ "publish_passport" ∷ []

unfoldable pub optimizer_tools : List String
optimizer_tools = "optimizer_run" ∷ "optimizer_sweep" ∷ []

unfoldable pub backtest_tools : List String
backtest_tools = "run_bot_backtest" ∷ "run_backtest" ∷ "run_paper_runtime" ∷ "run_portfolio" ∷ []

unfoldable pub determinism_toggle_params : List String
determinism_toggle_params =
    "fill_model" ∷ "fill_model_mode" ∷ "maker_fills_optimistic" ∷ "execution_fidelity" ∷ "seed"
    ∷ "rng_seed" ∷ "venue" ∷ "slippage_model" ∷ "liquidity_model" ∷ "queue_model" ∷ []

unfoldable pub managed_entry_tools : List String
managed_entry_tools = "start_live_paper" ∷ []

unfoldable pub is_mutating : String → Bool
unfolding mutating_tools
is_mutating tool = includes mutating_tools tool

unfoldable pub is_managed_entry : String → Bool
unfolding managed_entry_tools
is_managed_entry tool = includes managed_entry_tools tool

unfoldable pub is_live_paper_start : String → Bool
unfolding live_paper_start_tools
is_live_paper_start tool = includes live_paper_start_tools tool

unfoldable pub is_publish : String → Bool
unfolding publish_tools
is_publish tool = includes publish_tools tool
