-- ===== src/Trigger/Plans.antt =====
-- The plans that triggers propose (triggers/reviewPlan.ts) before the guardrails.
use arivion.Prelude.{
  ℕ, String, ◌≡◌, refl, Bool, not, Option, none, some, List, [], ◌∷◌, includes, if-case, All,
  All-get_elem?, get_elem?,
}
use arivion.Exit.Real.{Real}
use arivion.Guard.Playbooks.{get_playbook}
use arivion.Guard.Tools.{
  is_publish, is_managed_entry, backtest_tools, optimizer_tools, is_live_paper_start,
  determinism_toggle_params,
}
use arivion.Guard.Validate.{validate_plan, validate_in, plan_violations, check_steps, check_step}
use arivion.Position.Plans.{Limits}
use arivion.Trigger.Conditions.{MarketEvent, Defaults, Candidate, raise, rules, evaluate_conditions}
use arivion.Trigger.Review.{ReviewInput, build_review_plan}

-- the playbooks of the on-chain triggers
abbrev pub onchain_playbooks : List String
onchain_playbooks =
    "lp_recenter_review" ∷ "lp_recompare_review" ∷ "lp_rehedge_review" ∷ "carry_flip_review" ∷ []

All-raise :
    (P : Candidate → Type 0) (rules : List (Bool × Candidate))
    → All (λ r. P r.1) rules
    → All P (raise rules)
unfolding raise
All-raise P [] all = tt
All-raise P ((test, c) ∷ rules) all =
    if-case (All P) test (c ∷ raise rules) (raise rules) (λ t. (all.0, All-raise P rules all.1))
      (λ t. All-raise P rules all.1)

module _ (R : Real) where
  open R use {Num}

  module _ (limits : Limits) (input : ReviewInput) where
    -- the guardrails' verdict on the review under a playbook
    Verdict : Candidate → Type 0
    Verdict c =
        (validate_plan R none
          (build_review_plan limits (record input { playbook = c.playbook }))).ok
        ≡ not (includes onchain_playbooks c.playbook)

    -- The guardrails accept the review plan of each candidate that an event of the market gives, but
    -- of the four on-chain ones: the playbooks which these name are not registered.
    pub review_plan_verdict :
        (d : Defaults Num) (ev : MarketEvent Num) (threshold : String → Option Num) (k : ℕ)
        (c : Candidate)
        → get_elem? (evaluate_conditions R d ev threshold) k ≡ some c
        → (validate_plan R none
            (build_review_plan limits (record input { playbook = c.playbook }))).ok
          ≡ not (includes onchain_playbooks c.playbook)
    unfolding evaluate_conditions rules Verdict validate_plan validate_in build_review_plan
        get_playbook plan_violations backtest_tools optimizer_tools is_live_paper_start
        is_managed_entry check_steps check_step determinism_toggle_params is_publish
    review_plan_verdict d ev threshold k c at =
        All-get_elem? Verdict (evaluate_conditions R d ev threshold) k c
          (All-raise Verdict (rules R d ev threshold)
            (refl, (refl, (refl, (refl, (refl, (refl, (refl, (refl, (refl, (refl, tt)))))))))))
          at
