-- ===== src/Trigger/Rails.antt =====
-- The rows, settings and rails of triggers/evaluator.ts, and what of settings/index.ts they read. Times
-- are milliseconds; SHA-256 is a parameter, `digest`; new rows stand in front.
use arivion.Prelude.{
  ℕ, ◌+◌, ◌*◌, ◌/◌, max, String, Bool, true, false, not, ◌&&◌, Option, none, some, List, [], ◌∷◌,
  str_eq, ltb, ◌==◌, if◌then◌else◌,
}
use arivion.Guard.Plan.{AutonomyLevel, AgentPlan}
use arivion.Risk.Breakers.{RiskState, halted}
use arivion.Risk.Status.{Settings}
use arivion.Budget.{BudgetConfig, BudgetEvent}
use arivion.Position.Plans.{Limits}
use arivion.Trigger.Conditions.{Defaults, Candidate}

-- the part of `OwnerSettings` that is read here
pub record OwnerSettings : Type 0 where
  pub autonomy_level : AutonomyLevel
  pub agent_enabled : Bool
  pub disable_triggers : Bool

-- `AUTONOMY_RANK` of settings/index.ts, doubled: there `L1_5_shadow` has the rank 1.5
abbrev pub twice_rank : AutonomyLevel → ℕ
twice_rank AutonomyLevel.l0 = 0
twice_rank AutonomyLevel.l1 = 2
twice_rank AutonomyLevel.l1_5_shadow = 3
twice_rank AutonomyLevel.l2 = 4
twice_rank AutonomyLevel.l3 = 6

pub data Mode : Type 0 where
  skipped shadow live : Mode

pub data Skip : Type 0 where
  quiet_hours dedupe cooldown : Skip

-- a row of agent_trigger_config
pub record TriggerConfig (N : Type 0) : Type 0 where
  pub owner_id : ℕ
  pub armed : Bool
  pub trigger_type : String
  pub threshold : Option N
  pub cooldown_seconds : Option ℕ
  pub default_live : Bool
  pub quiet_hours : List ℕ

pub record TriggerRow : Type 0 where
  pub id : String
  pub owner_id : ℕ
  pub trigger_type : String
  pub symbol : String
  pub dedupe_key : String
  pub mode : Mode
  pub acted : Bool
  pub run_id : Option String
  pub ts : ℕ

pub record Fired : Type 0 where
  pub id : String
  pub trigger_type : String
  pub mode : Mode
  pub acted : Bool
  pub skip : Option Skip

-- `launched` are the plans that `executeTriggerPlan` is started with, by the trigger's id.
pub record TriggerWorld (N : Type 0) : Type 0 where
  pub rows : List TriggerRow
  pub settings : Settings
  pub launched : List (String × AgentPlan N)

-- what one evaluation reads of the clock, the configuration and the other tables
pub record TriggerEnv (N : Type 0) : Type 0 where
  pub now : ℕ
  pub hour : ℕ
  pub global_kill : Bool
  pub max_per_day : ℕ
  pub trigger_cooldown_seconds : ℕ
  pub spent : ℕ
  pub budget_config : BudgetConfig
  pub budget : List BudgetEvent
  pub limits : Limits
  pub defaults : Defaults N
  -- the ids of the `i`-th trigger, of its thread and of its plan
  pub fresh_id : ℕ → String
  pub thread_id : ℕ → String
  pub plan_id : ℕ → String
  pub digest : ℕ → String → String → Option String → ℕ → String

-- `barTs ? Math.floor(barTs / 60000) : 0`
abbrev pub bucket : Option ℕ → ℕ
bucket none = 0
bucket (some ts) = ts / 60000

abbrev pub is_dup : ℕ → String → TriggerRow → Bool
is_dup owner key row = row.owner_id == owner && str_eq row.dedupe_key key

-- `MAX(ts)` of the rows of the type and symbol, 0 if there is none
unfoldable pub last_fire : ℕ → String → String → List TriggerRow → ℕ
last_fire owner type symbol [] = 0
last_fire owner type symbol (row ∷ rows) =
    let rest = last_fire owner type symbol rows in
    if row.owner_id == owner && str_eq row.trigger_type type && str_eq row.symbol symbol
    then max row.ts rest
    else rest

-- `cfg.cooldown_seconds ?? config.triggerCooldownSeconds`
abbrev pub cooldown_of : Option ℕ → ℕ → ℕ
cooldown_of none default = default
cooldown_of (some seconds) default = seconds

abbrev pub in_cooldown : ℕ → ℕ → ℕ → Bool
in_cooldown now last seconds = not (last == 0) && ltb now (last + seconds * 1000)

abbrev pub is_acted_today : ℕ → ℕ → TriggerRow → Bool
is_acted_today now owner row = row.owner_id == owner && row.acted && ltb now (row.ts + 86400000)

abbrev pub is_ok : {A : Type 0} → Option A → Bool
is_ok none = true
is_ok (some fault) = false

abbrev pub is_halted : RiskState → Bool
is_halted halted = true
is_halted RiskState.normal = false
is_halted RiskState.risk_averse = false

abbrev pub skip_with : Candidate → Skip → Fired
skip_with c why = record {
  id = "";
  trigger_type = c.trigger_type;
  mode = skipped;
  acted = false;
  skip = some why;
}

abbrev pub or_linear : Option String → String
or_linear none = "linear"
or_linear (some c) = c

-- UPDATE agent_trigger_events SET acted=true, mode='live', run_id=$2 WHERE id=$1
unfoldable pub set_acted : String → String → List TriggerRow → List TriggerRow
set_acted id run_id [] = []
set_acted id run_id (row ∷ rows) =
    let rest = set_acted id run_id rows in
    (if str_eq row.id id
      then record row { acted = true; mode = live; run_id = some run_id }
      else row)
    ∷ rest
