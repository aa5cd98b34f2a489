-- ===== src/Guard/Playbooks.antt =====
-- playbooks/registry.ts: the playbooks, each with the tools that it allows. Their texts for people
-- (goal, stop conditions, failure modes) are left out: the guardrails do not read them.
use arivion.Prelude.{String, Option, none, some, List, [], ◌∷◌, ◌++◌, str_eq, if◌then◌else◌}
use arivion.Guard.Plan.{AutonomyLevel}

pub record Playbook : Type 0 where
  pub id : String
  pub allowed_tools : List String
  pub required_inputs : List String
  pub min_autonomy : AutonomyLevel
  pub approval_required_tools : List String
  pub required_honesty_fields : List String

abbrev discovery : List String
discovery = "list_capabilities" ∷ "describe_tool" ∷ "get_param_help" ∷ "explain_error" ∷ []

abbrev pub build_and_backtest_bot : Playbook
build_and_backtest_bot = record {
  id = "build_and_backtest_bot";
  allowed_tools =
      discovery
      ++ ("data_coverage" ∷ "find_data_gaps" ∷ "ensure_candles" ∷ "get_candles" ∷ "list_symbols"
          ∷ "list_bot_templates" ∷ "create_bot_spec" ∷ "get_bot_spec" ∷ "validate_bot_spec"
          ∷ "bot_cockpit" ∷ "run_bot_backtest" ∷ []);
  required_inputs = "symbol" ∷ "category" ∷ [];
  min_autonomy = AutonomyLevel.l1;
  approval_required_tools = "create_bot_spec" ∷ "run_bot_backtest" ∷ [];
  required_honesty_fields =
      "fill_model" ∷ "coverage_proof" ∷ "result_tier" ∷ "risk_class" ∷ "hard_blocks" ∷ [];
}

abbrev optimize_existing_bot : Playbook
optimize_existing_bot = record {
  id = "optimize_existing_bot";
  allowed_tools =
      discovery
      ++ ("get_bot_spec" ∷ "bot_cockpit" ∷ "optimizer_run" ∷ "optimizer_sweep" ∷ "get_optimizer_run"
          ∷ "run_bot_backtest" ∷ []);
  required_inputs = "bot_id" ∷ [];
  min_autonomy = AutonomyLevel.l2;
  approval_required_tools = "optimizer_sweep" ∷ [];
  required_honesty_fields = "fill_model" ∷ "coverage_proof" ∷ "result_tier" ∷ [];
}

abbrev start_live_paper_session : Playbook
start_live_paper_session = record {
  id = "start_live_paper_session";
  allowed_tools =
      discovery
      ++ ("get_bot_spec" ∷ "bot_cockpit" ∷ "start_live_paper" ∷ "list_live_paper_sessions"
          ∷ "stop_live_paper" ∷ []);
  required_inputs = "bot_id" ∷ [];
  min_autonomy = AutonomyLevel.l2;
  approval_required_tools = "start_live_paper" ∷ [];
  required_honesty_fields = "execution_fidelity" ∷ "result_tier" ∷ [];
}

abbrev pub open_managed_position : Playbook
open_managed_position = record {
  id = "open_managed_position";
  allowed_tools =
      discovery
      ++ ("get_bot_spec" ∷ "bot_cockpit" ∷ "data_coverage" ∷ "get_candles" ∷ "start_live_paper"
          ∷ "list_live_paper_sessions" ∷ []);
  required_inputs = "bot_id" ∷ [];
  min_autonomy = AutonomyLevel.l2;
  approval_required_tools = "start_live_paper" ∷ [];
  required_honesty_fields = "execution_fidelity" ∷ "result_tier" ∷ [];
}

abbrev manage_position : Playbook
manage_position = record {
  id = "manage_position";
  allowed_tools =
      discovery
      ++ ("get_bot_spec" ∷ "bot_cockpit" ∷ "list_live_paper_sessions" ∷ "stop_live_paper" ∷ []);
  required_inputs = "session_id" ∷ [];
  min_autonomy = AutonomyLevel.l2;
  approval_required_tools = [];
  required_honesty_fields = "execution_fidelity" ∷ [];
}

abbrev inspect_drawdown : Playbook
inspect_drawdown = record {
  id = "inspect_drawdown";
  allowed_tools =
      discovery
      ++ ("get_bot_spec" ∷ "get_backtest" ∷ "list_trades" ∷ "get_replay_timeline" ∷ "bot_cockpit"
          ∷ "data_coverage" ∷ []);
  required_inputs = [];
  min_autonomy = AutonomyLevel.l0;
  approval_required_tools = [];
  required_honesty_fields = "result_tier" ∷ [];
}

abbrev regime_flip_review : Playbook
regime_flip_review = record {
  id = "regime_flip_review";
  allowed_tools =
      discovery ++ ("list_regimes" ∷ "load_regime" ∷ "get_regime_bars" ∷ "data_coverage" ∷ []);
  required_inputs = [];
  min_autonomy = AutonomyLevel.l0;
  approval_required_tools = [];
  required_honesty_fields = [];
}

abbrev funding_extreme_scan : Playbook
funding_extreme_scan = record {
  id = "funding_extreme_scan";
  allowed_tools = discovery ++ ("list_symbols" ∷ "data_coverage" ∷ "get_regime_bars" ∷ []);
  required_inputs = [];
  min_autonomy = AutonomyLevel.l0;
  approval_required_tools = [];
  required_honesty_fields = [];
}

abbrev volatility_spike_review : Playbook
volatility_spike_review = record {
  id = "volatility_spike_review";
  allowed_tools = discovery ++ ("data_coverage" ∷ "get_regime_bars" ∷ "get_candles" ∷ []);
  required_inputs = [];
  min_autonomy = AutonomyLevel.l0;
  approval_required_tools = [];
  required_honesty_fields = [];
}

abbrev coverage_repair : Playbook
coverage_repair = record {
  id = "coverage_repair";
  allowed_tools =
      discovery
      ++ ("data_coverage" ∷ "find_data_gaps" ∷ "ensure_candles" ∷ "backfill_job" ∷ "backfill_queue"
          ∷ []);
  required_inputs = "symbol" ∷ [];
  min_autonomy = AutonomyLevel.l1;
  approval_required_tools = "ensure_candles" ∷ "backfill_job" ∷ [];
  required_honesty_fields = "coverage_proof" ∷ [];
}

abbrev pub publish_verified_result : Playbook
publish_verified_result = record {
  id = "publish_verified_result";
  allowed_tools =
      discovery
      ++ ("get_backtest" ∷ "verify_passport_direct" ∷ "publish_passport" ∷ "marketplace_publish"
          ∷ []);
  required_inputs = "passport_id" ∷ [];
  min_autonomy = AutonomyLevel.l2;
  approval_required_tools = "publish_passport" ∷ "marketplace_publish" ∷ [];
  required_honesty_fields = "result_tier" ∷ "fill_model" ∷ [];
}

abbrev build_and_backtest_multiasset : Playbook
build_and_backtest_multiasset = record {
  id = "build_and_backtest_multiasset";
  allowed_tools =
      discovery
      ++ ("data_coverage" ∷ "list_symbols" ∷ "get_candles" ∷ "list_regimes" ∷ "get_regime_bars"
          ∷ "validate_portfolio" ∷ "run_portfolio" ∷ "optimizer_sweep" ∷ []);
  required_inputs = [];
  min_autonomy = AutonomyLevel.l1;
  approval_required_tools = "run_portfolio" ∷ "optimizer_sweep" ∷ [];
  required_honesty_fields = "result_tier" ∷ [];
}

abbrev setup_multiasset_paper : Playbook
setup_multiasset_paper = record {
  id = "setup_multiasset_paper";
  allowed_tools =
      discovery
      ++ ("validate_portfolio" ∷ "list_live_paper_sessions" ∷ "start_multiasset_paper"
          ∷ "stop_multiasset_paper" ∷ "list_multiasset_paper_sessions" ∷ []);
  required_inputs = "legs" ∷ [];
  min_autonomy = AutonomyLevel.l2;
  approval_required_tools = "start_multiasset_paper" ∷ [];
  required_honesty_fields = "execution_fidelity" ∷ [];
}

abbrev web_research_note : Playbook
web_research_note = record {
  id = "web_research_note";
  allowed_tools = discovery;
  required_inputs = "query" ∷ [];
  min_autonomy = AutonomyLevel.l1;
  approval_required_tools = [];
  required_honesty_fields = [];
}

abbrev memory_reflection : Playbook
memory_reflection = record {
  id = "memory_reflection";
  allowed_tools = discovery;
  required_inputs = [];
  min_autonomy = AutonomyLevel.l1;
  approval_required_tools = [];
  required_honesty_fields = [];
}

abbrev find_playbook : String → List Playbook → Option Playbook
find_playbook id [] = none
find_playbook id (p ∷ ps) = if str_eq p.id id then some p else find_playbook id ps

unfoldable pub get_playbook : String → Option Playbook
get_playbook id = find_playbook id (
    build_and_backtest_bot ∷ optimize_existing_bot ∷ start_live_paper_session
    ∷ open_managed_position ∷ manage_position ∷ inspect_drawdown ∷ regime_flip_review
    ∷ funding_extreme_scan ∷ volatility_spike_review ∷ coverage_repair ∷ publish_verified_result
    ∷ build_and_backtest_multiasset ∷ setup_multiasset_paper ∷ web_research_note ∷ memory_reflection
    ∷ [])
