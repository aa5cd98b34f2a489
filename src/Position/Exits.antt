-- ===== src/Position/Exits.antt =====
-- The plans of positions/plans.ts before the guardrails and in the orchestrator: a protective exit
-- always reaches its tool.
use arivion.Prelude.{
  String, ◌≡◌, refl, false, Option, none, some, [], ◌∷◌, ◌++◌, length, if◌then◌else◌, Bool-cases,
  Option-cases, not, ◌&&◌, inl, inr,
}
use arivion.Exit.Real.{Real}
use arivion.Exit.Policy.{validate_exit_policy}
use arivion.Guard.Plan.{AutonomyLevel}
use arivion.Guard.Playbooks.{get_playbook}
use arivion.Guard.Tools.{
  is_publish, is_managed_entry, backtest_tools, optimizer_tools, is_live_paper_start,
  determinism_toggle_params,
}
use arivion.Guard.Validate.{
  validate_plan, validate_in, check_steps, check_step, is_none, below_l2, plan_violations,
  exit_violations,
}
use arivion.Run.Honesty.{Honesty, has_hard_blocks}
use arivion.Run.Store.{RunStatus, RunDb, is_done, create_run, finish_run}
use arivion.Run.Runner.{
  Reply, RunOutcome, throws, returns, after_reply, finish_blocked, run_steps, run_guarded,
  execute_plan, decision_by_step,
}
use arivion.Position.Store.{PositionIntent}
use arivion.Position.Monitor.{ExitEnv, exit_options}
use arivion.Position.Plans.{
  Limits, OpenPositionInput, build_open_position_plan, build_close_position_plan, stop_step, or_l2,
}

module _ (R : Real) where
  open R use {Num}

  verdict_at :
      (limits : Limits) (input : OpenPositionInput Num) (autonomy : Option AutonomyLevel)
      → input.autonomy ≡ autonomy
      → (validate_plan R none (build_open_position_plan limits input)).ok
        ≡ (not (below_l2 (or_l2 autonomy)) && is_none (validate_exit_policy R input.exit_policy))
  unfolding build_open_position_plan validate_plan validate_in get_playbook backtest_tools
      optimizer_tools is_live_paper_start is_managed_entry check_steps check_step
      determinism_toggle_params is_publish plan_violations exit_violations
  verdict_at limits input none e = elim (Option-cases (validate_exit_policy R input.exit_policy)) [
    | inl valid ↦ rw (e, valid) refl
    | inr (fault, f) ↦ rw (e, f) refl
  ]
  verdict_at limits input (some AutonomyLevel.l0) e = rw e refl
  verdict_at limits input (some AutonomyLevel.l1) e = rw e refl
  verdict_at limits input (some AutonomyLevel.l1_5_shadow) e = rw e refl
  verdict_at limits input (some AutonomyLevel.l2) e =
      elim (Option-cases (validate_exit_policy R input.exit_policy)) [
        | inl valid ↦ rw (e, valid) refl
        | inr (fault, f) ↦ rw (e, f) refl
      ]
  verdict_at limits input (some AutonomyLevel.l3) e =
      elim (Option-cases (validate_exit_policy R input.exit_policy)) [
        | inl valid ↦ rw (e, valid) refl
        | inr (fault, f) ↦ rw (e, f) refl
      ]

  -- The guardrails accept the plan that opens a managed position exactly if its level is L2 or
  -- above and its exit policy is valid, whatever else the request holds.
  open_plan_verdict :
      (limits : Limits) (input : OpenPositionInput Num)
      → (validate_plan R none (build_open_position_plan limits input)).ok ≡ (
          not (below_l2 (or_l2 input.autonomy))
          && is_none (validate_exit_policy R input.exit_policy))
  open_plan_verdict limits input = verdict_at limits input input.autonomy refl

  -- how a protective exit ends, by the reply of its only tool
  pub exit_status : Reply Num → RunStatus
  exit_status throws = RunStatus.error
  exit_status (returns result) =
      if result.is_error
      then RunStatus.error
      else if has_hard_blocks result.honesty
      then RunStatus.blocked
      else RunStatus.completed

  module _ (env : ExitEnv Num) (intent : PositionIntent Num) (thread : String) where
    -- after the last step, for a rest of the plan that only ends the run
    reply_ends :
        (rest : Honesty Num → RunDb → RunOutcome Num × RunDb) (reply : Reply Num)
        (honesty : Honesty Num) (db : RunDb)
        → ((h : Honesty Num) (db : RunDb) → (rest h db).1.calls ≡ db.calls)
        → ((h : Honesty Num) (db : RunDb) → (rest h db).0.status ≡ RunStatus.completed)
        → ((after_reply R
              (exit_options R env intent thread)
              intent.owner_id
              env.fresh_id
              rest
              stop_step
              reply
              honesty
              db).1.calls
            ≡ db.calls)
          × ((after_reply R
                (exit_options R env intent thread)
                intent.owner_id
                env.fresh_id
                rest
                stop_step
                reply
                honesty
                db).0.status
              ≡ exit_status reply)
    unfolding after_reply finish_blocked finish_run exit_status
    reply_ends rest throws honesty db calls status = (refl, refl)
    reply_ends rest (returns result) honesty db calls status = elim (Bool-cases result.is_error) [
      | inl failed ↦ rw failed (refl, refl)
      | inr fine ↦ rw fine (elim (Bool-cases (has_hard_blocks result.honesty)) [
        | inl risky ↦ rw risky (refl, refl)
        | inr safe ↦ rw safe (calls _ _, status _ _)
      ])
    ]

    -- The run of a protective exit calls `stop_live_paper` and nothing else, without waiting for an
    -- approval, and the reply alone says how it ends: an error if the tool fails, blocked if it
    -- reports hard blocks, and else completed. Condition: the run's id is new.
    pub exit_calls_stop :
        (db : RunDb)
        → is_done intent.owner_id env.fresh_id db.steps "s1_stop" ≡ false
        → ((execute_plan R (exit_options R env intent thread) db).1.calls
            ≡ db.calls ++ stop_step ∷ [])
          × ((execute_plan R (exit_options R env intent thread) db).0.status
              ≡ exit_status (env.call_tool (length db.calls) stop_step))
    unfolding execute_plan run_guarded run_steps decision_by_step create_run finish_run
        build_close_position_plan validate_plan validate_in get_playbook backtest_tools
        optimizer_tools is_live_paper_start is_managed_entry check_steps check_step
        determinism_toggle_params is_publish
    exit_calls_stop db new = rw new (
        reply_ends
          (λ h d.
            run_steps R (exit_options R env intent thread) intent.owner_id env.fresh_id []
              (λ id. false) [] h d)
          (env.call_tool (length db.calls) stop_step) []
          (record db {
            runs =
                (create_run env.fresh_id intent.owner_id thread (some "manage_position") db).runs;
            calls = db.calls ++ stop_step ∷ [];
          })
          (λ h db. refl) (λ h db. refl))
