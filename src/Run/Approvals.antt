-- ===== src/Run/Approvals.antt =====
-- Approvals in `executePlan` (orchestrator/runner.ts): the decision that the runner finds under a
-- step's id, and what it means for the steps that publish.
use mathlib.Core.Path.{subst}
use arivion.Prelude.{
  ℕ, zero, suc, String, ◌≡◌, refl, ap, ◌∙◌, Bool, true, false, not, ◌&&◌, ◌||◌, Option, none, some,
  List, [], ◌∷◌, ◌++◌, any, includes, str_eq, get_elem?, eq_of_some-eq, arith, if-case, true_of_not,
  false_of_not, and_true, or_false, str_eq_refl, All-intro,
}
use arivion.Exit.Real.{Real}
use arivion.Guard.Plan.{PlanStep, AgentPlan}
use arivion.Guard.Tools.{is_publish}
use arivion.Guard.Playbooks.{Playbook, get_playbook}
use arivion.Guard.Validate.{
  StepDecision, Violation, needs_approval, Resolver, check_step, check_steps, validate_plan,
}
use arivion.Guard.Steps.{publish_waits}
use arivion.Guard.Safety.{decisions_of, step-IsClear, accepted_step-IsSafe}
use arivion.Run.Store.{RunDb}
use arivion.Run.Runner.{
  decision_by_step, is_needs_approval, must_wait, ExecuteOptions, execute_plan,
}
use arivion.Run.Calls.{guard_of}
use arivion.Run.Cleared.{ok_found, called_step-IsCleared, called_of_plan}

-- does a step have the id?
abbrev has_id : List PlanStep → String → Bool
has_id steps id = any (λ s. str_eq s.step_id id) steps

-- are the ids of the steps pairwise different?
abbrev distinct_ids : List PlanStep → Bool
distinct_ids [] = true
distinct_ids (s ∷ ss) = not (has_id ss s.step_id) && distinct_ids ss

has_id-at :
    (steps : List PlanStep) (i : ℕ) (s : PlanStep)
    → get_elem? steps i ≡ some s
    → has_id steps s.step_id ≡ true
has_id-at [] i s at = cc
has_id-at (t ∷ ts) zero s at =
    subst (λ u. (str_eq t.step_id u.step_id || has_id ts u.step_id) ≡ true) (eq_of_some-eq at)
      (rw (str_eq_refl t.step_id) refl)
has_id-at (t ∷ ts) (suc i) s at = ground (arith, has_id-at ts i s at)

approved_of_free :
    (decisions : List StepDecision) (approvals : List String) (step : PlanStep)
    → decision_by_step decisions step.step_id ≡ some needs_approval
    → must_wait decisions approvals step ≡ false
    → includes approvals step.step_id ≡ true
approved_of_free decisions approvals step e free =
    true_of_not _
      (subst (λ d. (is_needs_approval d && not (includes approvals step.step_id)) ≡ false) e free)

module _ (R : Real) where
  open R use {Num}

  module _ (resolver : Option Resolver) (plan : AgentPlan Num) (playbook : Playbook) where
    check_step-id :
        (step : PlanStep) → (check_step R resolver plan playbook step).0.step_id ≡ step.step_id
    unfolding check_step
    check_step-id step =
        if-case (λ (r : StepDecision × List Violation). r.0.step_id ≡ step.step_id) _ _ _
          (λ _. refl) (λ _. refl)

    no_decision :
        (steps : List PlanStep) (id : String)
        → has_id steps id ≡ false
        → decision_by_step (check_steps R resolver plan playbook steps).0 id ≡ none
    unfolding decision_by_step check_steps
    no_decision [] id h = refl
    no_decision (s ∷ ss) id h =
        let (other, absent) = or_false (str_eq s.step_id id) (has_id ss id) h in
        rw (no_decision ss id absent, check_step-id s, other) refl

    own_decision :
        (steps : List PlanStep) (i : ℕ) (step : PlanStep)
        → distinct_ids steps ≡ true
        → get_elem? steps i ≡ some step
        → decision_by_step (check_steps R resolver plan playbook steps).0 step.step_id
          ≡ some (check_step R resolver plan playbook step).0.decision
    unfolding decision_by_step check_steps
    own_decision [] i step d at = cc
    own_decision (s ∷ ss) zero step d at =
        let absent = false_of_not (has_id ss s.step_id) (and_true _ _ d).0 in
        subst
          (λ t.
            decision_by_step (check_steps R resolver plan playbook (s ∷ ss)).0 t.step_id
            ≡ some (check_step R resolver plan playbook t).0.decision)
          (eq_of_some-eq at)
          (rw (no_decision ss s.step_id absent, check_step-id s, str_eq_refl s.step_id) refl)
    own_decision (s ∷ ss) (suc i) step d at =
        let distinct = (and_true (not (has_id ss s.step_id)) (distinct_ids ss) d).1 in
        rw (own_decision ss i step distinct at) refl

  publish_decision :
      (plan : AgentPlan Num) (playbook : Playbook) (i : ℕ) (step : PlanStep)
      → get_playbook plan.playbook_id ≡ some playbook
      → (validate_plan R none plan).ok ≡ true
      → distinct_ids plan.steps ≡ true
      → get_elem? plan.steps i ≡ some step
      → is_publish step.tool ≡ true
      → decision_by_step (validate_plan R none plan).decisions step.step_id ≡ some needs_approval
  publish_decision plan playbook i step found ok distinct at publishes =
      ap (λ ds. decision_by_step ds step.step_id) (decisions_of R none plan playbook found)
      ∙ own_decision none plan playbook plan.steps i step distinct at
      ∙ ap some (
          (step-IsClear R none plan playbook i step found ok at).0.decided
          ∙ publish_waits R plan playbook step publishes
              (accepted_step-IsSafe R none plan playbook i step found ok at).publish_gated)

  module _ (opts : ExecuteOptions Num) (db : RunDb) where
    -- If the ids of the plan's steps are pairwise different, then a step that publishes is called
    -- only if its id is among the approvals that were given, at every autonomy level.
    pub published_step_approved :
        (made : List PlanStep) (k : ℕ) (step : PlanStep)
        → distinct_ids opts.plan.steps ≡ true
        → (execute_plan R opts db).1.calls ≡ db.calls ++ made
        → get_elem? made k ≡ some step
        → is_publish step.tool ≡ true
        → includes opts.approvals step.step_id ≡ true
    published_step_approved made k step distinct e at publishes =
        let cleared = called_step-IsCleared R opts db made k step e at in
        let (playbook, found) = ok_found R opts.plan cleared.accepted in
        let decided =
          called_of_plan R opts db
            (λ s.
              is_publish s.tool ≡ true
              → decision_by_step (guard_of R opts db).decisions s.step_id ≡ some needs_approval)
            made k step
            (All-intro _ opts.plan.steps
              (λ i s. publish_decision opts.plan playbook i s found cleared.accepted distinct))
            e at in
        approved_of_free (guard_of R opts db).decisions opts.approvals step (decided publishes)
          cleared.need_not_wait
