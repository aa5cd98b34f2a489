-- ===== src/Run/Store.antt =====
-- chat/store.ts and agent_approvals (apps/api/migrations/0018_agent_budget.sql): the rows of a run.
-- New rows stand in front. `calls` is not a table: it records the tool calls made, oldest first.
use arivion.Prelude.{
  ℕ, String, Bool, true, false, ◌&&◌, Option, List, [], ◌∷◌, any, str_eq, ◌==◌, if◌then◌else◌,
}
use arivion.Guard.Plan.{PlanStep}

pub data RunStatus : Type 0 where
  running proposed completed blocked awaiting_approval error : RunStatus

pub data StepState : Type 0 where
  completed blocked awaiting_approval error : StepState

pub record RunRow : Type 0 where
  pub id : String
  pub owner_id : ℕ
  pub thread_id : String
  pub playbook_id : Option String
  pub status : RunStatus
  pub cost_micro_usd : ℕ

pub record StepRow : Type 0 where
  pub run_id : String
  pub owner_id : ℕ
  pub step_id : String
  pub state : StepState
  pub tool : Option String

pub record ApprovalRow : Type 0 where
  pub run_id : String
  pub step_id : String
  pub owner_id : ℕ
  pub tool : String

pub record RunDb : Type 0 where
  pub runs : List RunRow
  pub steps : List StepRow
  pub approvals : List ApprovalRow
  pub calls : List PlanStep

-- `createRun`; the id is `run_` and a fresh uuid
unfoldable pub create_run : String → ℕ → String → Option String → RunDb → RunDb
create_run id owner thread playbook db = record db {
  runs =
      record {
        id = id;
        owner_id = owner;
        thread_id = thread;
        playbook_id = playbook;
        status = RunStatus.running;
        cost_micro_usd = 0;
      }
      ∷ db.runs;
}

unfoldable pub set_status : String → RunStatus → ℕ → List RunRow → List RunRow
set_status id status cost [] = []
set_status id status cost (r ∷ rs) =
    let rest = set_status id status cost rs in
    (if str_eq r.id id then record r { status = status; cost_micro_usd = cost } else r) ∷ rest

-- `finishRun`
unfoldable pub finish_run : String → RunStatus → ℕ → RunDb → RunDb
unfolding set_status
finish_run id status cost db = record db { runs = set_status id status cost db.runs }

-- `addStep`
abbrev pub add_step : ℕ → String → String → StepState → Option String → RunDb → RunDb
add_step owner run step_id state tool db = record db {
  steps =
      record { run_id = run; owner_id = owner; step_id = step_id; state = state; tool = tool }
      ∷ db.steps;
}

abbrev is_of_step : String → String → ApprovalRow → Bool
is_of_step run step_id row = str_eq row.run_id run && str_eq row.step_id step_id

-- INSERT INTO agent_approvals … WHERE NOT EXISTS …
unfoldable pub request_approval : ℕ → String → PlanStep → RunDb → RunDb
request_approval owner run step db =
    if any (is_of_step run step.step_id) db.approvals then db else record db {
      approvals =
          record { run_id = run; step_id = step.step_id; owner_id = owner; tool = step.tool }
          ∷ db.approvals;
    }

abbrev is_completed : StepState → Bool
is_completed StepState.completed = true
is_completed StepState.blocked = false
is_completed StepState.awaiting_approval = false
is_completed StepState.error = false

-- has the run a completed row of the step? (`getSteps`, and the set `completed` of the runner; an
-- empty id, which the schema of plans excludes, is not left out here)
abbrev pub is_done : ℕ → String → List StepRow → String → Bool
is_done owner run rows step_id =
    any
      (λ row.
        row.owner_id == owner
        && str_eq row.run_id run
        && is_completed row.state
        && str_eq row.step_id step_id)
      rows
