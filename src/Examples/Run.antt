-- ===== src/Examples/Run.antt =====
-- The theorems of the orchestrator, at a plan that publishes and at one that opens a session.
use arivion.Prelude.{ℤ, pos, ◌≡◌, refl, true, false, none, some, List, [], ◌∷◌, ◌++◌, includes}
use arivion.Guard.Plan.{PlanStep, AgentPlan}
use arivion.Guard.Playbooks.{Playbook, get_playbook}
use arivion.Guard.Tools.{
  is_publish, is_managed_entry, backtest_tools, optimizer_tools, is_live_paper_start,
  determinism_toggle_params,
}
use arivion.Guard.Validate.{validate_plan, check_steps, check_step}
use arivion.Guard.Steps.{IsSafe}
use arivion.Exit.Policy.{validate_exit_policy}
use arivion.Run.Store.{RunStatus, RunDb, set_status, create_run, finish_run, request_approval}
use arivion.Run.Honesty.{merge_honesty, has_hard_blocks, coverage_value, find_key}
use arivion.Run.Runner.{
  Reply, returns, ExecuteOptions, execute_plan, run_guarded, run_steps, after_reply, finish_blocked,
  decision_by_step,
}
use arivion.Run.Calls.{left, done_before, IsCleared}
use arivion.Run.Cleared.{calls_in_order, called_step-IsSafe}
use arivion.Run.Approvals.{published_step_approved}
use arivion.Run.Resume.{completed_run_replay}
use arivion.Examples.Fixed.{thousandths}
use arivion.Examples.Guard.{opening, publishing, publication, look, entry}

abbrev pub no_rows : RunDb
no_rows = record { runs = []; steps = []; approvals = []; calls = [] }

abbrev pub fine : Reply ℤ
fine = returns (record { is_error = false; raw = none; honesty = [] })

-- every tool replies, and the step "s1" is approved
abbrev options : AgentPlan ℤ → ExecuteOptions ℤ
options plan = record {
  plan = plan;
  call_tool = λ n step. fine;
  approvals = "s1" ∷ [];
  run_id = none;
  fresh_id = "run_1";
  cost = 5;
  coverage_floor = pos 900;
}

published :
    ((execute_plan thousandths (options publishing) no_rows).0.status ≡ RunStatus.completed)
    × ((execute_plan thousandths (options publishing) no_rows).1.calls ≡ [] ++ publication ∷ [])
    × ((execute_plan thousandths (options opening) no_rows).1.calls ≡ [] ++ look ∷ entry ∷ [])
unfolding execute_plan run_guarded run_steps after_reply finish_blocked decision_by_step
    validate_plan get_playbook backtest_tools optimizer_tools is_live_paper_start is_managed_entry
    validate_exit_policy check_steps check_step determinism_toggle_params is_publish set_status
    create_run finish_run request_approval merge_honesty has_hard_blocks coverage_value find_key
published = (refl, refl, refl)

calls_in_order_example :
    (made : List PlanStep) × (rest : List PlanStep) × ((execute_plan thousandths
        (options opening)
        no_rows).1.calls
      ≡ [] ++ made)
    × (left thousandths (done_before thousandths (options opening) no_rows) opening.steps
        ≡ made ++ rest)
calls_in_order_example = calls_in_order thousandths (options opening) no_rows

called_step-IsSafe_example :
    (IsCleared thousandths (options opening) no_rows entry)
    × (playbook : Playbook) × (get_playbook opening.playbook_id ≡ some playbook)
    × (IsSafe thousandths opening playbook entry)
called_step-IsSafe_example =
    called_step-IsSafe thousandths (options opening) no_rows (look ∷ entry ∷ []) 1 entry published.2
      refl

published_step_approved_example : includes ("s1" ∷ []) publication.step_id ≡ true
unfolding is_publish
published_step_approved_example =
    published_step_approved thousandths (options publishing) no_rows (publication ∷ []) 0
      publication refl published.1 refl refl

-- the tools of the second run would fail
abbrev again : ExecuteOptions ℤ
again = record (options publishing) { run_id = some "run_1"; call_tool = λ n step. Reply.throws }

completed_run_replay_example :
    (execute_plan thousandths again
      (execute_plan thousandths (options publishing) no_rows).1).1.calls
    ≡ (execute_plan thousandths (options publishing) no_rows).1.calls
completed_run_replay_example =
    completed_run_replay thousandths (options publishing) no_rows again refl refl published.0
