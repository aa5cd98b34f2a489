-- ===== src/Run/Cleared.antt =====
-- What `executePlan` (orchestrator/runner.ts) calls: in which order, and under which conditions.
use mathlib.Core.Path.{subst}
use mathlib.Core.Bool.{false≢true}
use mathlib.Core.List.{append-nil}
use arivion.Prelude.{
  ℕ, ◌≡◌, sym, ap, ◌∙◌, true, not, none, some, List, ◌++◌, All, All-intro, All-prefix, All-select,
  All-get_elem?, get_elem?, append-cancel_left, Option-cases, inl, inr,
}
use arivion.Exit.Real.{Real}
use arivion.Guard.Plan.{PlanStep, AgentPlan}
use arivion.Guard.Playbooks.{Playbook, get_playbook}
use arivion.Guard.Validate.{validate_in, validate_plan}
use arivion.Guard.Steps.{IsSafe}
use arivion.Guard.Safety.{accepted_step-IsSafe}
use arivion.Run.Store.{completed, RunDb}
use arivion.Run.Runner.{ExecuteOptions, execute_plan}
use arivion.Run.Calls.{left, IsCleared, done_before, execute_plan-Run}

module _ (R : Real) where
  open R use {Num}

  pub ok_found :
      (plan : AgentPlan Num)
      → (validate_plan R none plan).ok ≡ true
      → (playbook : Playbook) × (get_playbook plan.playbook_id ≡ some playbook)
  unfolding validate_plan
  ok_found plan ok = elim (Option-cases (get_playbook plan.playbook_id)) [
    | inl e ↦ absurd (false≢true (subst (λ found. (validate_in R none plan found).ok ≡ true) e ok))
    | inr found ↦ found
  ]

  module _ (opts : ExecuteOptions Num) (db : RunDb) where
    -- The tool calls that `executePlan` adds are the first ones, in the order of the plan, of the
    -- plan's steps that the run had not completed before: no step is called twice, called out of
    -- order or skipped.
    pub calls_in_order :
        (made : List PlanStep) × (rest : List PlanStep) × ((execute_plan R opts db).1.calls
          ≡ db.calls ++ made)
        × (left R (done_before R opts db) opts.plan.steps ≡ made ++ rest)
    calls_in_order = let c = execute_plan-Run R opts db in (c.made, c.rest, c.calls, c.split)

    -- If `executePlan` reports a run as completed, it has called each of the plan's steps that the
    -- run had not completed before.
    pub completed_calls_all :
        (execute_plan R opts db).0.status ≡ completed
        → (execute_plan R opts db).1.calls
          ≡ db.calls ++ left R (done_before R opts db) opts.plan.steps
    completed_calls_all e =
        let c = execute_plan-Run R opts db in
        c.calls
        ∙ ap (λ xs. db.calls ++ xs)
            (sym (append-nil c.made) ∙ ap (λ xs. c.made ++ xs) (sym (c.finished e)) ∙ sym c.split)

    made_is :
        (made : List PlanStep)
        → (execute_plan R opts db).1.calls ≡ db.calls ++ made
        → (execute_plan-Run R opts db).made ≡ made
    made_is made e = append-cancel_left db.calls _ _ (sym (execute_plan-Run R opts db).calls ∙ e)

    pub called_step-IsCleared :
        (made : List PlanStep) (k : ℕ) (step : PlanStep)
        → (execute_plan R opts db).1.calls ≡ db.calls ++ made
        → get_elem? made k ≡ some step
        → IsCleared R opts db step
    called_step-IsCleared made k step e at =
        All-get_elem? (IsCleared R opts db) made k step
          (subst (All (IsCleared R opts db)) (made_is made e) (execute_plan-Run R opts db).called)
          at

    -- what holds of each step of the plan holds of each step that is called
    pub called_of_plan :
        (P : PlanStep → Type 0) (made : List PlanStep) (k : ℕ) (step : PlanStep)
        → All P opts.plan.steps
        → (execute_plan R opts db).1.calls ≡ db.calls ++ made
        → get_elem? made k ≡ some step
        → P step
    called_of_plan P made k step all e at =
        let c = execute_plan-Run R opts db in
        let todo = All-select P (λ s. not (done_before R opts db s.step_id)) opts.plan.steps all in
        All-get_elem? P made k step
          (subst (All P) (made_is made e) (All-prefix P c.made c.rest (subst (All P) c.split todo)))
          at

    -- A step is called only if the plan is above level L0, the guardrails accept the plan, the run
    -- had not completed the step before and the step does not wait for an approval; and it obeys the
    -- hard rules of the plan's playbook: its tool is allowed, it starts a live session at L2 or
    -- above only, it publishes only behind a declared approval gate, and it changes nothing if a web
    -- page triggered the plan.
    pub called_step-IsSafe :
        (made : List PlanStep) (k : ℕ) (step : PlanStep)
        → (execute_plan R opts db).1.calls ≡ db.calls ++ made
        → get_elem? made k ≡ some step
        → (IsCleared R opts db step)
          × (playbook : Playbook) × (get_playbook opts.plan.playbook_id ≡ some playbook)
          × (IsSafe R opts.plan playbook step)
    called_step-IsSafe made k step e at =
        let cleared = called_step-IsCleared made k step e at in
        let (playbook, found) = ok_found opts.plan cleared.accepted in
        (
          cleared,
          playbook,
          found,
          called_of_plan (IsSafe R opts.plan playbook) made k step
              (All-intro _ opts.plan.steps
                (λ i s. accepted_step-IsSafe R none opts.plan playbook i s found cleared.accepted))
              e at,
        )
