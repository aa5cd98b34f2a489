-- ===== src/Guard/Steps.antt =====
-- The lemmas on one step's check of `validatePlan` (guardrails/index.ts) and on lists of violations.
use arivion.Prelude.{
  ◌≡◌, ◌≢◌, refl, sym, ◌∙◌, inl, inr, Bool, true, false, not, ◌&&◌, Option, none, some, List, [],
  ◌∷◌, ◌++◌, includes, arith, Bool-cases,
}
use mathlib.Core.Bool.{false≢true}
use arivion.Exit.Real.{Real}
use arivion.Guard.Plan.{PlanStep, AgentPlan}
use arivion.Guard.Tools.{is_mutating, is_live_paper_start, is_publish}
use arivion.Guard.Playbooks.{Playbook}
use arivion.Guard.Validate.{
  allow, needs_approval, blocked, Code, Violation, Resolver, is_l0, below_l2, violation_if,
  web_trigger, gated, hard_rule, approval, first_verdict, toggles_silently, has_unknown_params,
  check_step, Verdict, is_blocked, verdict_violations, toggle_violations,
}

pub nil_of_append : {A : Type 0} (xs ys : List A) → xs ++ ys ≡ [] → (xs ≡ []) × (ys ≡ [])
nil_of_append [] ys h = (refl, h)
nil_of_append (x ∷ xs) ys h = cc

pub some_not_nil : {A : Type 0} (x : A) (xs : List A) → x ∷ xs ≢ []
some_not_nil x xs h = cc

pub nil_of_violation_if : (t : Bool) (code : Code) → violation_if t code ≡ [] → t ≡ false
nil_of_violation_if false code h = refl
nil_of_violation_if true code h = cc

module _ (R : Real) where
  open R use {Num}

  -- what the rules ask of a step
  pub record IsSafe (plan : AgentPlan Num) (playbook : Playbook) (step : PlanStep) : Type 0 where
    pub allowed : includes playbook.allowed_tools step.tool ≡ true
    pub l0_reads_only : (is_l0 plan.autonomy_level && is_mutating step.tool) ≡ false
    pub live_from_l2 : (is_live_paper_start step.tool && below_l2 plan.autonomy_level) ≡ false
    pub publish_gated : (is_publish step.tool && not (gated R plan step)) ≡ false
    pub web_reads_only : (web_trigger R plan && is_mutating step.tool) ≡ false

  pub hard_rule-IsSafe :
      (plan : AgentPlan Num) (playbook : Playbook) (step : PlanStep)
      → hard_rule R plan playbook step ≡ none
      → IsSafe plan playbook step
  unfolding hard_rule
  hard_rule-IsSafe plan playbook step h = ground arith

  -- a step whose check adds no violation
  pub record IsClear (resolver : Option Resolver) (plan : AgentPlan Num) (playbook : Playbook)
      (step : PlanStep) : Type 0 where
    pub no_rule : hard_rule R plan playbook step ≡ none
    pub open_gate : is_blocked R (approval R plan playbook step) ≡ false
    pub known : has_unknown_params R resolver step ≡ false
    pub decided :
        (check_step R resolver plan playbook step).0.decision ≡ (approval R plan playbook step).0

  loud_adds :
      (step : PlanStep) (found : List Violation) → found ++ toggle_violations R true step ≢ []
  loud_adds step found h = some_not_nil _ _ (nil_of_append found _ h).1

  approval-reason :
      (plan : AgentPlan Num) (playbook : Playbook) (step : PlanStep)
      → verdict_violations R step (approval R plan playbook step) ≡ []
      → is_blocked R (approval R plan playbook step) ≡ false
  unfolding approval
  approval-reason plan playbook step h = ground arith

  first_verdict-none :
      (plan : AgentPlan Num) (playbook : Playbook) (step : PlanStep)
      → hard_rule R plan playbook step ≡ none
      → first_verdict R plan playbook step ≡ approval R plan playbook step
  unfolding first_verdict
  first_verdict-none plan playbook step e = rw (e, first_verdict) refl

  pub check_step-some :
      (resolver : Option Resolver) (plan : AgentPlan Num) (playbook : Playbook) (step : PlanStep)
      (code : Code)
      → hard_rule R plan playbook step ≡ some code
      → (check_step R resolver plan playbook step).1 ≢ []
  unfolding check_step first_verdict
  check_step-some resolver plan playbook step code e =
      rw (check_step, first_verdict, e)
        (elim (Bool-cases (toggles_silently R plan step)) [
          | inl t ↦ rw t (λ h. cc)
          | inr t ↦ rw t (λ h. cc)
        ])

  pub check_step-IsClear :
      (resolver : Option Resolver) (plan : AgentPlan Num) (playbook : Playbook) (step : PlanStep)
      → hard_rule R plan playbook step ≡ none
      → (check_step R resolver plan playbook step).1 ≡ []
      → IsClear resolver plan playbook step
  unfolding check_step
  check_step-IsClear resolver plan playbook step e =
      elim (Bool-cases (toggles_silently R plan step)) [
        | inl t ↦ elim (Bool-cases (is_blocked R (approval R plan playbook step))) [
          | inl b ↦
              rw (check_step, first_verdict-none plan playbook step e, t, b, b)
                (λ h. absurd (loud_adds step _ h))
          | inr b ↦
              rw (check_step, first_verdict-none plan playbook step e, t, b)
                (λ h. absurd (some_not_nil _ _ (nil_of_append _ _ h).1))
        ]
        | inr t ↦ elim (Bool-cases (is_blocked R (approval R plan playbook step))) [
          | inl b ↦
              rw (check_step, first_verdict-none plan playbook step e, t, b)
                (λ h. absurd (
                  false≢true
                    (sym (approval-reason plan playbook step (nil_of_append _ _ h).0) ∙ b)))
          | inr b ↦ elim (Bool-cases (has_unknown_params R resolver step)) [
            | inl u ↦
                rw (check_step, first_verdict-none plan playbook step e, t, b, u)
                  (λ h. absurd (some_not_nil _ _ (nil_of_append _ _ h).1))
            | inr u ↦ λ h. record {
              no_rule = e;
              open_gate = b;
              known = u;
              decided = rw (check_step, first_verdict-none plan playbook step e, t, b, u) refl;
            }
          ]
        ]
      ]

  pub publish_waits :
      (plan : AgentPlan Num) (playbook : Playbook) (step : PlanStep)
      → is_publish step.tool ≡ true
      → (is_publish step.tool && not (gated R plan step)) ≡ false
      → (approval R plan playbook step).0 ≡ needs_approval
  unfolding approval
  publish_waits plan playbook step h safe = ground arith

  pub listed_waits :
      (plan : AgentPlan Num) (playbook : Playbook) (step : PlanStep)
      → includes playbook.approval_required_tools step.tool ≡ true
      → below_l2 plan.autonomy_level ≡ true
      → is_blocked R (approval R plan playbook step) ≡ false
      → (approval R plan playbook step).0 ≡ needs_approval
  unfolding approval
  listed_waits plan playbook step listed low open_gate = ground arith

  pub not_blocked : (v : Verdict R) → is_blocked R v ≡ false → v.0 ≢ blocked
  not_blocked (allow, code) h e = cc
  not_blocked (needs_approval, code) h e = cc
  not_blocked (blocked, code) h e = cc
