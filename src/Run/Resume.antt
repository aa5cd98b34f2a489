-- ===== src/Run/Resume.antt =====
-- Resuming a run in `executePlan` (orchestrator/runner.ts): the completed rows that a run leaves.
use arivion.Prelude.{
  ℕ, String, ◌≡◌, refl, sym, ap, ◌∙◌, Bool, true, false, not, ◌&&◌, ◌||◌, some, List, [], ◌∷◌, ◌++◌,
  str_eq, eq_iff, Bool-cases, inl, inr, arith, All, All-mono, select-nil, ◌==◌,
}
use mathlib.Core.Path.{subst}
use mathlib.Core.List.{append-nil}
use arivion.Exit.Real.{Real}
use arivion.Guard.Plan.{PlanStep, AgentPlan}
use arivion.Guard.Validate.{StepDecision, is_l0}
use arivion.Guard.Steps.{nil_of_append}
use arivion.Run.Honesty.{Honesty, coverage_value, has_hard_blocks}
use arivion.Run.Store.{StepState, completed, RunDb, finish_run, is_done, StepRow, add_step}
use arivion.Run.Runner.{
  Reply, throws, returns, RunOutcome, ExecuteOptions, must_wait, finish_blocked, after_reply, call,
  run_steps, run_guarded, run_of, open_run, execute_plan, below_floor,
}
use arivion.Run.Calls.{left, done_before, guard_of, execute_plan-Run}

or_true : (a b : Bool) → b ≡ true → (a || b) ≡ true
or_true true b h = refl
or_true false b h = h

eq_refl : (n : ℕ) → (n == n) ≡ true
eq_refl n = ground arith

module _ (owner : ℕ) (run : String) where
  -- a step that the rows say is completed
  abbrev IsDone : List StepRow → PlanStep → Type 0
  IsDone rows s = is_done owner run rows s.step_id ≡ true

  is_done-add :
      (rows : List StepRow) (step : PlanStep)
      → is_done owner run
          (record {
            run_id = run;
            owner_id = owner;
            step_id = step.step_id;
            state = StepState.completed;
            tool = some step.tool;
          }
            ∷ rows)
          step.step_id
        ≡ true
  is_done-add rows step =
      rw (eq_refl owner, (eq_iff run run).1 refl, (eq_iff step.step_id step.step_id).1 refl) refl

module _ (R : Real) where
  open R use {Num}

  module _ (owner : ℕ) (run : String) where
    -- what a run that ends as completed has done
    record Finished (todo : List PlanStep) (before : List StepRow) (r : RunOutcome Num × RunDb)
        : Type 0 where
      pub kept :
          (id : String) → is_done owner run before id ≡ true → is_done owner run r.1.steps id ≡ true
      pub all : All (IsDone owner run r.1.steps) todo

    abbrev Ends : List PlanStep → List StepRow → RunOutcome Num × RunDb → Type 0
    Ends todo before r = r.0.status ≡ completed → Finished todo before r

  module _ (opts : ExecuteOptions Num) (owner : ℕ) (run : String) (decisions : List StepDecision)
      (done : String → Bool) where
    after_reply-Ends :
        (next : Honesty Num → RunDb → RunOutcome Num × RunDb) (step : PlanStep)
        (todo : List PlanStep) (reply : Reply Num) (honesty : Honesty Num) (db : RunDb)
        → ((h : Honesty Num)
            → Ends owner run todo
                (add_step owner run step.step_id StepState.completed (some step.tool) db).steps
                (next h (add_step owner run step.step_id StepState.completed (some step.tool) db)))
        → Ends owner run
            (step ∷ todo)
            db.steps
            (after_reply R opts owner run next step reply honesty db)
    unfolding after_reply finish_blocked finish_run
    after_reply-Ends next step todo throws honesty db ih = λ e. cc
    after_reply-Ends next step todo (returns result) honesty db ih =
        elim (Bool-cases result.is_error) [
          | inl failed ↦ rw failed (λ e. cc)
          | inr fine ↦ rw fine (elim (Bool-cases (has_hard_blocks result.honesty)) [
            | inl risky ↦ rw risky (λ e. cc)
            | inr safe ↦
                rw safe
                  (elim (Bool-cases (
                    str_eq step.tool "data_coverage"
                    && below_floor R opts.coverage_floor (coverage_value result.honesty))) [
                      | inl thin ↦ rw thin (λ e. cc)
                      | inr covered ↦ rw covered (λ e.
                          let f = ih _ e in
                          record {
                            kept = λ id h. f.kept id (or_true _ _ h);
                            all =
                                (f.kept step.step_id (is_done-add owner run db.steps step), f.all);
                          })
                    ])
          ])
        ]

    run_steps-Ends :
        (steps : List PlanStep) (honesty : Honesty Num) (db : RunDb)
        → ((id : String) → done id ≡ true → is_done owner run db.steps id ≡ true)
        → Ends owner run steps db.steps (run_steps R opts owner run decisions done steps honesty db)
    unfolding run_steps finish_run
    run_steps-Ends [] honesty db known = λ e. record { kept = λ id h. h; all = tt }
    run_steps-Ends (step ∷ steps) honesty db known = elim (Bool-cases (done step.step_id)) [
      | inl over ↦ rw over (λ e.
          let f = run_steps-Ends steps honesty db known e in
          record { kept = f.kept; all = (f.kept step.step_id (known step.step_id over), f.all) })
      | inr open_step ↦ rw open_step (elim (Bool-cases (must_wait decisions opts.approvals step)) [
        | inl waits ↦ rw waits (λ e. cc)
        | inr free ↦ rw free (
            after_reply-Ends (λ h d. run_steps R opts owner run decisions done steps h d) step steps
              _ honesty (call R opts owner run step db)
              (λ h.
                run_steps-Ends steps h
                  (add_step owner run step.step_id StepState.completed (some step.tool)
                    (call R opts owner run step db))
                  (λ id over. or_true _ _ (known id over))))
      ])
    ]

  nothing_left :
      (owner : ℕ) (run : String) (rows : List StepRow) (steps : List PlanStep)
      → All (IsDone owner run rows) steps
      → left R (is_done owner run rows) steps ≡ []
  nothing_left owner run rows steps all =
      select-nil _ steps (All-mono _ _ steps (λ s done. ap not done) all)

  run_of-some :
      (opts : ExecuteOptions Num) (id : String) → opts.run_id ≡ some id → run_of R opts ≡ id
  run_of-some opts id e = rw (e, run_of) refl

  module _ (opts : ExecuteOptions Num) (db : RunDb) where
    run_guarded-Ends :
        Ends opts.plan.owner_id (run_of R opts) opts.plan.steps (open_run R opts db).steps (
          run_guarded R opts opts.plan.owner_id
            (run_of R opts)
            (guard_of R opts db)
            (open_run R opts db))
    unfolding run_guarded finish_run
    run_guarded-Ends = elim (Bool-cases (is_l0 opts.plan.autonomy_level)) [
      | inl low ↦ rw (low, run_guarded) (λ e. cc)
      | inr high ↦ elim (Bool-cases (guard_of R opts db).ok) [
        | inr refused ↦ rw (high, run_guarded, refused) (λ e. cc)
        | inl accepted ↦
            rw (high, run_guarded, accepted)
              (run_steps-Ends opts opts.plan.owner_id (run_of R opts) (guard_of R opts db).decisions
                (is_done opts.plan.owner_id (run_of R opts) (open_run R opts db).steps)
                opts.plan.steps [] (open_run R opts db) (λ id h. h))
      ]
    ]

    -- If `executePlan` reports a run as completed, then the run has a completed row of each step of
    -- the plan.
    completed_steps-IsDone :
        (execute_plan R opts db).0.status ≡ completed
        → All
            (IsDone opts.plan.owner_id (run_of R opts) (execute_plan R opts db).1.steps)
            opts.plan.steps
    unfolding execute_plan
    completed_steps-IsDone e = (run_guarded-Ends e).all

    -- To execute the plan of a completed run once more under that run's id calls no tool, whatever
    -- the tools would reply and whatever is approved.
    pub completed_run_replay :
        (again : ExecuteOptions Num)
        → again.plan ≡ opts.plan
        → again.run_id ≡ some (run_of R opts)
        → (execute_plan R opts db).0.status ≡ completed
        → (execute_plan R again (execute_plan R opts db).1).1.calls
          ≡ (execute_plan R opts db).1.calls
    completed_run_replay again same id e =
        let after = (execute_plan R opts db).1 in
        let c = execute_plan-Run R again after in
        let nothing : left R (done_before R again after) again.plan.steps ≡ [] =
          subst
            (λ (plan : AgentPlan Num).
              left R (is_done plan.owner_id (run_of R again) after.steps) plan.steps ≡ [])
            (sym same)
            (subst (λ run. left R (is_done opts.plan.owner_id run after.steps) opts.plan.steps ≡ [])
              (sym (run_of-some again (run_of R opts) id))
              (nothing_left opts.plan.owner_id (run_of R opts) after.steps opts.plan.steps
                (completed_steps-IsDone e))) in
        c.calls
        ∙ ap (λ xs. after.calls ++ xs) (nil_of_append c.made c.rest (sym c.split ∙ nothing)).0
        ∙ append-nil after.calls
