-- ===== src/Guard/Safety.antt =====
-- What an accepted plan guarantees (guardrails/index.ts).
use arivion.Prelude.{
  ℕ, zero, suc, ◌≡◌, ◌≢◌, ◌≤◌, refl, sym, ◌∙◌, ap, inl, inr, Bool, true, false, not, Option, none,
  some, List, [], ◌∷◌, ◌++◌, length, eq_of_some-eq, get_elem?, includes, arith, ltb, Option-cases,
}
use mathlib.Core.Path.{subst}
use mathlib.Core.Option
use mathlib.Core.Bool.{false≢true}
use arivion.Exit.Real.{Real}
use arivion.Exit.Policy.{ExitPolicy, validate_exit_policy}
use arivion.Guard.Plan.{autonomy_rank, PlanStep, AgentPlan}
use arivion.Guard.Tools.{is_publish}
use arivion.Guard.Playbooks.{Playbook, get_playbook}
use arivion.Guard.Validate.{
  Decision, needs_approval, blocked, Violation, Resolver, below_l2, runs, sweeps, lives,
  opens_position, exit_violations, plan_violations, hard_rule, approval, check_step, is_empty,
  is_none, check_steps, validate_in, validate_plan,
}
use arivion.Guard.Steps.{
  nil_of_append, nil_of_violation_if, some_not_nil, IsSafe, hard_rule-IsSafe, IsClear,
  check_step-IsClear, check_step-some, publish_waits, listed_waits, not_blocked,
}

none_not_some : {A : Type 0} {x : A} → none ≢ some x
none_not_some h = cc

nil_of_is_empty : (R : Real) (xs : List Violation) → is_empty R xs ≡ true → xs ≡ []
nil_of_is_empty R [] h = refl
nil_of_is_empty R (x ∷ xs) h = absurd (false≢true h)

le_of_ltb : (m n : ℕ) → ltb m n ≡ false → n ≤ m
le_of_ltb m n h = ground arith

module _ (R : Real) where
  open R use {Num}

  valid_exit :
      (opens : Bool) (policy : Option (ExitPolicy Num))
      → opens ≡ true
      → exit_violations R opens policy ≡ []
      → (p : ExitPolicy Num) × (policy ≡ some p) × (validate_exit_policy R p ≡ none)
  unfolding exit_violations
  valid_exit false policy opens h = absurd (false≢true opens)
  valid_exit true none opens h = absurd (some_not_nil _ _ h)
  valid_exit true (some p) opens h = elim (Option-cases (validate_exit_policy R p)) [
    | inl e ↦ (p, refl, e)
    | inr (fault, e) ↦
        absurd (false≢true (sym (nil_of_violation_if _ _ h) ∙ ap (λ o. not (is_none o)) e))
  ]

  -- what the rules on the whole plan ask, but for its inputs and its exit
  pub record IsInBudget (plan : AgentPlan Num) (playbook : Playbook) : Type 0 where
    pub level : autonomy_rank playbook.min_autonomy ≤ autonomy_rank plan.autonomy_level
    pub steps_bound : length plan.steps ≤ plan.budgets.max_steps
    pub runs_bound : runs R plan ≤ plan.budgets.max_runs
    pub sweeps_bound : sweeps R plan ≤ plan.budgets.max_sweeps
    pub lives_bound : lives R plan ≤ plan.budgets.max_live_sessions

  plan_rules :
      (plan : AgentPlan Num) (playbook : Playbook)
      → plan_violations R plan playbook ≡ []
      → (IsInBudget plan playbook)
        × (exit_violations R (opens_position R plan) plan.exit_policy ≡ [])
  unfolding plan_violations
  plan_rules plan playbook h0 =
      let (low, h1) = nil_of_append _ _ h0 in
      let (missing, h2) = nil_of_append _ _ h1 in
      let (s, h3) = nil_of_append _ _ h2 in
      let (r, h4) = nil_of_append _ _ h3 in
      let (w, h5) = nil_of_append _ _ h4 in
      let (l, h6) = nil_of_append _ _ h5 in
      (
        record {
          level = le_of_ltb _ _ (nil_of_violation_if _ _ low);
          steps_bound = le_of_ltb _ _ (nil_of_violation_if _ _ s);
          runs_bound = le_of_ltb _ _ (nil_of_violation_if _ _ r);
          sweeps_bound = le_of_ltb _ _ (nil_of_violation_if _ _ w);
          lives_bound = le_of_ltb _ _ (nil_of_violation_if _ _ l);
        },
        h6,
      )

  module _ (resolver : Option Resolver) (plan : AgentPlan Num) (playbook : Playbook) where
    no_violation :
        get_playbook plan.playbook_id ≡ some playbook
        → (validate_plan R resolver plan).ok ≡ true
        → plan_violations R plan playbook ++ (check_steps R resolver plan playbook plan.steps).1
          ≡ []
    unfolding validate_plan
    no_violation found accepted =
        nil_of_is_empty R _ (subst (λ p. (validate_in R resolver plan p).ok ≡ true) found accepted)

    pub decisions_of :
        get_playbook plan.playbook_id ≡ some playbook
        → (validate_plan R resolver plan).decisions
          ≡ (check_steps R resolver plan playbook plan.steps).0
    unfolding validate_plan
    decisions_of found = rw found refl

    check_step_cases :
        (step : PlanStep)
        → (check_step R resolver plan playbook step).1 ≡ []
        → IsClear R resolver plan playbook step
    check_step_cases step h = elim (Option-cases (hard_rule R plan playbook step)) [
      | inr (code, e) ↦ absurd (check_step-some R resolver plan playbook step code e h)
      | inl e ↦ check_step-IsClear R resolver plan playbook step e h
    ]

    check_steps-IsClear :
        (steps : List PlanStep) (i : ℕ) (step : PlanStep)
        → (check_steps R resolver plan playbook steps).1 ≡ []
        → get_elem? steps i ≡ some step
        → (IsClear R resolver plan playbook step)
          × (get_elem? (check_steps R resolver plan playbook steps).0 i
              ≡ some (check_step R resolver plan playbook step).0)
    unfolding check_steps
    check_steps-IsClear [] i step h at = absurd (none_not_some at)
    check_steps-IsClear (s ∷ ss) zero step h at =
        subst
          (λ t.
            (IsClear R resolver plan playbook t)
            × (some (check_step R resolver plan playbook s).0
                ≡ some (check_step R resolver plan playbook t).0))
          (eq_of_some-eq at) (check_step_cases s (nil_of_append _ _ h).0, refl)
    check_steps-IsClear (s ∷ ss) (suc i) step h at =
        check_steps-IsClear ss i step (nil_of_append _ _ h).1 at

    pub step-IsClear :
        (i : ℕ) (step : PlanStep)
        → get_playbook plan.playbook_id ≡ some playbook
        → (validate_plan R resolver plan).ok ≡ true
        → get_elem? plan.steps i ≡ some step
        → (IsClear R resolver plan playbook step)
          × (get_elem? (validate_plan R resolver plan).decisions i
              ≡ some (check_step R resolver plan playbook step).0)
    step-IsClear i step found accepted at = rw (decisions_of found) (
        check_steps-IsClear plan.steps i step (nil_of_append _ _ (no_violation found accepted)).1
          at)

    -- If a plan is accepted, each of its steps obeys the hard rules: its tool is allowed by the
    -- playbook, at level L0 it changes nothing, it starts a live session at L2 or above only, it
    -- publishes only behind a declared approval gate, and it changes nothing if a web page
    -- triggered the plan.
    pub accepted_step-IsSafe :
        (i : ℕ) (step : PlanStep)
        → get_playbook plan.playbook_id ≡ some playbook
        → (validate_plan R resolver plan).ok ≡ true
        → get_elem? plan.steps i ≡ some step
        → IsSafe R plan playbook step
    accepted_step-IsSafe i step found accepted at =
        hard_rule-IsSafe R plan playbook step (step-IsClear i step found accepted at).0.no_rule

    decision_at :
        (i : ℕ) (step : PlanStep)
        → get_playbook plan.playbook_id ≡ some playbook
        → (validate_plan R resolver plan).ok ≡ true
        → get_elem? plan.steps i ≡ some step
        → Option.map (λ d. d.decision) (get_elem? (validate_plan R resolver plan).decisions i)
          ≡ some (approval R plan playbook step).0
    decision_at i step found accepted at =
        let (clear, decided) = step-IsClear i step found accepted at in
        ap (Option.map (λ d. d.decision)) decided ∙ ap some clear.decided

    -- If a plan is accepted, then it has a decision for each of its steps, at the place of the
    -- step, and the decision is not to block.
    accepted_step_not_blocked :
        (i : ℕ) (step : PlanStep)
        → get_playbook plan.playbook_id ≡ some playbook
        → (validate_plan R resolver plan).ok ≡ true
        → get_elem? plan.steps i ≡ some step
        → (decision : Decision) × (Option.map
              (λ d. d.decision)
              (get_elem? (validate_plan R resolver plan).decisions i)
            ≡ some decision)
          × (decision ≢ blocked)
    accepted_step_not_blocked i step found accepted at = (
      (approval R plan playbook step).0,
      decision_at i step found accepted at,
      not_blocked R _ (step-IsClear i step found accepted at).0.open_gate,
    )

    -- If a plan is accepted, the decision on a step that publishes is that it needs approval,
    -- whatever the autonomy level.
    accepted_publish_waits :
        (i : ℕ) (step : PlanStep)
        → get_playbook plan.playbook_id ≡ some playbook
        → (validate_plan R resolver plan).ok ≡ true
        → get_elem? plan.steps i ≡ some step
        → is_publish step.tool ≡ true
        → Option.map (λ d. d.decision) (get_elem? (validate_plan R resolver plan).decisions i)
          ≡ some needs_approval
    accepted_publish_waits i step found accepted at publishes =
        decision_at i step found accepted at
        ∙ ap some (
            publish_waits R plan playbook step publishes
              (accepted_step-IsSafe i step found accepted at).publish_gated)

    -- If a plan below level L2 is accepted, the decision on a step whose tool the playbook lists
    -- as one to approve is that it needs approval.
    accepted_listed_waits :
        (i : ℕ) (step : PlanStep)
        → get_playbook plan.playbook_id ≡ some playbook
        → (validate_plan R resolver plan).ok ≡ true
        → get_elem? plan.steps i ≡ some step
        → includes playbook.approval_required_tools step.tool ≡ true
        → below_l2 plan.autonomy_level ≡ true
        → Option.map (λ d. d.decision) (get_elem? (validate_plan R resolver plan).decisions i)
          ≡ some needs_approval
    accepted_listed_waits i step found accepted at listed low =
        decision_at i step found accepted at
        ∙ ap some (
            listed_waits R plan playbook step listed low
              (step-IsClear i step found accepted at).0.open_gate)

    -- An accepted plan reaches the minimal autonomy level of its playbook, and stays within its
    -- own budgets of steps, backtests, sweeps and live sessions.
    accepted_plan_budgets :
        get_playbook plan.playbook_id ≡ some playbook
        → (validate_plan R resolver plan).ok ≡ true
        → IsInBudget plan playbook
    accepted_plan_budgets found accepted =
        (plan_rules plan playbook (nil_of_append _ _ (no_violation found accepted)).0).0

    -- An accepted plan with a step that opens a position carries an exit policy, and the policy is
    -- valid.
    pub accepted_entry_has_exit :
        get_playbook plan.playbook_id ≡ some playbook
        → (validate_plan R resolver plan).ok ≡ true
        → opens_position R plan ≡ true
        → (policy : ExitPolicy Num) × (plan.exit_policy ≡ some policy)
          × (validate_exit_policy R policy ≡ none)
    accepted_entry_has_exit found accepted opens =
        valid_exit (opens_position R plan) plan.exit_policy opens
          (plan_rules plan playbook (nil_of_append _ _ (no_violation found accepted)).0).1
