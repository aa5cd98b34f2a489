-- ===== src/Trigger/Evaluate.antt =====
-- triggers/evaluator.ts: `evaluateEvent` and `executeTriggerPlan`.
use arivion.Prelude.{
  ℕ, suc, String, Bool, false, not, ◌&&◌, ◌||◌, Option, none, some, List, [], ◌∷◌, ◌++◌, any, count,
  select, str_eq, leb, ◌==◌, if◌then◌else◌,
}
use Prim.Native.String.{◌++◌ as str_append}
use arivion.Exit.Real.{Real}
use arivion.Guard.Plan.{AutonomyLevel, AgentPlan}
use arivion.Risk.Breakers.{RiskState}
use arivion.Risk.Status.{get_risk_state}
use arivion.Budget.{BudgetEvent, run, check_budget, record_budget_event}
use arivion.Run.Store.{RunDb}
use arivion.Run.Runner.{ExecuteOptions, execute_plan}
use arivion.Trigger.Conditions.{MarketEvent, Candidate, evaluate_conditions}
use arivion.Trigger.Review.{build_review_plan}
use arivion.Trigger.Rails.{
  OwnerSettings, twice_rank, Mode, shadow, live, quiet_hours, dedupe, cooldown, TriggerConfig,
  TriggerRow, Fired, TriggerWorld, TriggerEnv, bucket, is_dup, last_fire, in_cooldown, cooldown_of,
  is_acted_today, is_ok, is_halted, skip_with, or_linear, set_acted,
}

module _ {N : Type 0} where
  -- `WHERE owner_id = $1 AND armed = true`
  abbrev pub armed_rows : ℕ → List (TriggerConfig N) → List (TriggerConfig N)
  armed_rows owner cfgs = select (λ c. c.owner_id == owner && c.armed) cfgs

  -- `cfgByType.get`
  unfoldable pub config_of : List (TriggerConfig N) → String → Option (TriggerConfig N)
  config_of [] type = none
  config_of (c ∷ cs) type = if str_eq c.trigger_type type then some c else config_of cs type

  abbrev pub dedupe_key : TriggerEnv N → ℕ → String → MarketEvent N → String
  dedupe_key env owner type ev = env.digest owner type ev.symbol ev.regime (bucket ev.bar_ts)

  abbrev pub over_cap : TriggerEnv N → ℕ → List TriggerRow → Bool
  over_cap env owner rows = leb env.max_per_day (count (is_acted_today env.now owner) rows)

  -- `canLive`
  abbrev pub can_live :
      TriggerEnv N → ℕ → OwnerSettings → Candidate → List TriggerRow → RiskState → Bool
  can_live env owner settings c rows risk =
      leb (twice_rank AutonomyLevel.l2) (twice_rank settings.autonomy_level)
      && leb 70 c.confidence
      && not (over_cap env owner rows)
      && is_ok (check_budget env.budget_config env.now owner env.spent run env.budget)
      && not (is_halted risk)

  abbrev pub row_of : TriggerEnv N → ℕ → MarketEvent N → Candidate → ℕ → Mode → TriggerRow
  row_of env owner ev c i mode = record {
    id = env.fresh_id i;
    owner_id = owner;
    trigger_type = c.trigger_type;
    symbol = ev.symbol;
    dedupe_key = dedupe_key env owner c.trigger_type ev;
    mode = mode;
    acted = false;
    run_id = none;
    ts = env.now;
  }

  abbrev review_of : TriggerEnv N → ℕ → MarketEvent N → Candidate → ℕ → AgentPlan N
  review_of env owner ev c i = build_review_plan env.limits (record {
    plan_id = env.plan_id i;
    owner_id = owner;
    thread_id = env.thread_id i;
    playbook = c.playbook;
    symbol = ev.symbol;
    category = or_linear ev.category;
  })

  -- a candidate that passes the rails fires, live or as a shadow
  unfoldable pub fire :
      TriggerEnv N
      → ℕ
      → OwnerSettings
      → MarketEvent N
      → TriggerConfig N
      → Candidate
      → ℕ
      → TriggerWorld N
      → Fired × TriggerWorld N
  unfolding check_budget get_risk_state
  fire env owner settings ev cfg c i w =
      let (risk, risks) = get_risk_state env.now owner w.settings in
      let is_live = cfg.default_live && can_live env owner settings c w.rows risk.state in
      let mode = if is_live then live else shadow in
      (
        record {
          id = env.fresh_id i;
          trigger_type = c.trigger_type;
          mode = mode;
          acted = is_live;
          skip = none;
        },
        record {
          rows = row_of env owner ev c i mode ∷ w.rows;
          settings = risks;
          launched =
              if is_live
              then w.launched ++ (env.fresh_id i, review_of env owner ev c i) ∷ []
              else w.launched;
        },
      )

  -- one pass of the loop
  unfoldable pub consider :
      TriggerEnv N
      → ℕ
      → OwnerSettings
      → MarketEvent N
      → TriggerConfig N
      → Candidate
      → ℕ
      → TriggerWorld N
      → Fired × TriggerWorld N
  unfolding fire last_fire
  consider env owner settings ev cfg c i w =
      if any (λ h. h == env.hour) cfg.quiet_hours
      then (skip_with c quiet_hours, w)
      else if any (is_dup owner (dedupe_key env owner c.trigger_type ev)) w.rows
      then (skip_with c dedupe, w)
      else if in_cooldown env.now (last_fire owner c.trigger_type ev.symbol w.rows)
          (cooldown_of cfg.cooldown_seconds env.trigger_cooldown_seconds)
      then (skip_with c cooldown, w)
      else fire env owner settings ev cfg c i w

  -- the loop, over the candidates whose type is armed
  unfoldable pub consider_all :
      TriggerEnv N
      → ℕ
      → OwnerSettings
      → MarketEvent N
      → List (TriggerConfig N)
      → List Candidate
      → ℕ
      → TriggerWorld N
      → List Fired × TriggerWorld N
  unfolding consider config_of
  consider_all env owner settings ev cfgs [] i w = ([], w)
  consider_all env owner settings ev cfgs (c ∷ cs) i w = elim (config_of cfgs c.trigger_type) [
    | none ↦ consider_all env owner settings ev cfgs cs (suc i) w
    | some cfg ↦
        let (f, w') = consider env owner settings ev cfg c i w in
        let (fs, w'') = consider_all env owner settings ev cfgs cs (suc i) w' in (f ∷ fs, w'')
  ]

  abbrev pub threshold_of : List (TriggerConfig N) → String → Option N
  threshold_of cfgs type = elim (config_of cfgs type) [ none ↦ none | some c ↦ c.threshold ]

  abbrev pub rails_off : TriggerEnv N → OwnerSettings → Bool
  rails_off env settings =
      env.global_kill || not settings.agent_enabled || settings.disable_triggers

module _ (R : Real) where
  open R use {Num}

  -- `evaluateEvent`, over the rows of agent_trigger_config; no other evaluation runs meanwhile
  unfoldable pub evaluate_event :
      TriggerEnv Num
      → ℕ
      → OwnerSettings
      → List (TriggerConfig Num)
      → MarketEvent Num
      → TriggerWorld Num
      → List Fired × TriggerWorld Num
  unfolding consider_all evaluate_conditions
  evaluate_event env owner settings cfgs ev w =
      let armed = armed_rows owner cfgs in
      let fired =
        consider_all env owner settings ev armed
          (evaluate_conditions R env.defaults ev (threshold_of armed)) 0 w in
      if rails_off env settings then ([], w) else fired

  -- `executeTriggerPlan`, where `connectMcp` returns
  unfoldable execute_trigger_plan :
      ℕ
      → ℕ
      → String
      → ExecuteOptions Num
      → RunDb
      → List TriggerRow
      → List BudgetEvent
      → String × RunDb × List TriggerRow × List BudgetEvent
  unfolding set_acted record_budget_event
  execute_trigger_plan now owner id opts db rows budget =
      let (outcome, db') = execute_plan R opts db in
      (
        outcome.run_id,
        db',
        set_acted id outcome.run_id rows,
        record_budget_event now owner "run" (some outcome.run_id)
            (some (str_append "trigger " opts.plan.playbook_id)) 1 budget,
      )
