-- ===== src/Budget.antt =====
-- budget/index.ts: the caps on an owner's autonomous actions. Times are milliseconds. The sum over
-- agent_llm_usage_events is an argument, and so is the comparison of it, in doubles, to the cap.
use arivion.Prelude.{
  ℕ, ◌+◌, ◌≤◌, ◌<◌, String, ◌≡◌, Bool, ◌&&◌, Option, none, some, List, [], ◌∷◌, count, str_eq, ◌==◌,
  ltb, leb, if◌then◌else◌, arith,
}

pub record BudgetEvent : Type 0 where
  pub owner_id : ℕ
  pub run_id : Option String
  pub kind : String
  pub amount : ℕ
  pub reason : Option String
  pub ts : ℕ

-- the part of `config` that caps a day
pub record BudgetConfig : Type 0 where
  pub max_runs_per_day : ℕ
  pub max_live_sessions_per_day : ℕ
  -- `usd >= config.maxCostPerDayUsd`, of micro-dollars
  pub reaches_cost : ℕ → Bool

pub record DayUsage : Type 0 where
  pub runs_today : ℕ
  pub live_sessions_today : ℕ
  pub llm_micro_usd_today : ℕ

pub data ActionKind : Type 0 where
  run live_session : ActionKind

pub data BudgetFault : Type 0 where
  llm_budget run_cap live_session_cap : BudgetFault

abbrev day : ℕ
day = 86400000

-- `ts > now() - interval '1 day'`
abbrev is_today : ℕ → ℕ → String → BudgetEvent → Bool
is_today now owner kind e = e.owner_id == owner && str_eq e.kind kind && ltb now (e.ts + day)

unfoldable pub day_usage : ℕ → ℕ → ℕ → List BudgetEvent → DayUsage
day_usage now owner spent events = record {
  runs_today = count (is_today now owner "run") events;
  live_sessions_today = count (is_today now owner "live_session") events;
  llm_micro_usd_today = spent;
}

-- the cap of the kind
abbrev kind_fault : BudgetConfig → DayUsage → ActionKind → Option BudgetFault
kind_fault config u run = if leb config.max_runs_per_day u.runs_today then some run_cap else none
kind_fault config u live_session =
    if leb config.max_live_sessions_per_day u.live_sessions_today
    then some live_session_cap
    else none

-- `checkBudget`, which is ok if there is no fault
unfoldable pub check_budget :
    BudgetConfig → ℕ → ℕ → ℕ → ActionKind → List BudgetEvent → Option BudgetFault
unfolding day_usage
check_budget config now owner spent kind events =
    let u = day_usage now owner spent events in
    if config.reaches_cost u.llm_micro_usd_today then some llm_budget else kind_fault config u kind

-- `recordBudgetEvent`; the amount is 1 where it is not given
unfoldable pub record_budget_event :
    ℕ → ℕ → String → Option String → Option String → ℕ → List BudgetEvent → List BudgetEvent
record_budget_event now owner kind run_id reason amount events =
    record {
      owner_id = owner;
      run_id = run_id;
      kind = kind;
      amount = amount;
      reason = reason;
      ts = now;
    }
    ∷ events

-- later, no more events of the day are left
count-later :
    (now later owner : ℕ) (kind : String) (events : List BudgetEvent)
    → now ≤ later
    → count (is_today later owner kind) events ≤ count (is_today now owner kind) events
count-later now later owner kind [] le = omega arith
count-later now later owner kind (e ∷ es) le =
    ground (arith, count-later now later owner kind es le)

one_more :
    (now later owner : ℕ) (kind : String) (e : BudgetEvent) (events : List BudgetEvent) (cap : ℕ)
    → now ≤ later
    → count (is_today now owner kind) events < cap
    → count (is_today later owner kind) (e ∷ events) ≤ cap
one_more now later owner kind e events cap le below =
    ground (arith, count-later now later owner kind events le)

-- the text of a kind, its cap, and its count
abbrev kind_text : ActionKind → String
kind_text run = "run"
kind_text live_session = "live_session"

abbrev pub cap_of : BudgetConfig → ActionKind → ℕ
cap_of config run = config.max_runs_per_day
cap_of config live_session = config.max_live_sessions_per_day

abbrev pub used_of : DayUsage → ActionKind → ℕ
used_of u run = u.runs_today
used_of u live_session = u.live_sessions_today

-- If `checkBudget` accepts an action and its event is then recorded, the count of the day is within
-- the cap of the kind, at that time and at any later one until something else is recorded.
pub checked_event_within_cap :
    (config : BudgetConfig) (now later owner spent amount : ℕ) (kind : ActionKind)
    (run_id reason : Option String) (events : List BudgetEvent)
    → now ≤ later
    → check_budget config now owner spent kind events ≡ none
    → used_of
        (day_usage later owner spent
          (record_budget_event now owner (kind_text kind) run_id reason amount events))
        kind
      ≤ cap_of config kind
unfolding check_budget day_usage record_budget_event
checked_event_within_cap config now later owner spent amount run run_id reason events le ok =
    one_more now later owner "run"
      (record {
        owner_id = owner;
        run_id = run_id;
        kind = "run";
        amount = amount;
        reason = reason;
        ts = now;
      })
      events config.max_runs_per_day le (ground arith)
checked_event_within_cap config now later owner spent amount live_session run_id reason events le
      ok =
    one_more now later owner "live_session"
      (record {
        owner_id = owner;
        run_id = run_id;
        kind = "live_session";
        amount = amount;
        reason = reason;
        ts = now;
      })
      events config.max_live_sessions_per_day le (ground arith)
