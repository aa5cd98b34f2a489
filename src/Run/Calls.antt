-- ===== src/Run/Calls.antt =====
-- Which tools `executePlan` calls: the steps that are left, in order, up to the first stop.
use mathlib.Core.Path.{subst}
use mathlib.Core.List.{append-nil, append_assoc}
use arivion.Prelude.{
  ℕ, String, ◌≡◌, ◌≢◌, refl, sym, ap, ◌∙◌, Bool, true, false, not, ◌&&◌, none, List, [], ◌∷◌, ◌++◌,
  str_eq, All, arith, select, Bool-cases, Option-cases, inl, inr,
}
use arivion.Exit.Real.{Real}
use arivion.Guard.Plan.{PlanStep}
use arivion.Guard.Validate.{StepDecision, GuardrailResult, is_l0, validate_plan}
use arivion.Run.Honesty.{Honesty, coverage_value, has_hard_blocks}
use arivion.Run.Store.{completed, RunDb, create_run, finish_run, request_approval, is_done}
use arivion.Run.Runner.{
  Reply, throws, returns, RunOutcome, ExecuteOptions, must_wait, finish_blocked, after_reply, call,
  run_steps, run_guarded, run_of, open_run, execute_plan, below_floor,
}

request_approval-calls :
    (owner : ℕ) (run : String) (step : PlanStep) (db : RunDb)
    → (request_approval owner run step db).calls ≡ db.calls
unfolding request_approval
request_approval-calls owner run step db = ground arith

module _ (R : Real) where
  open R use {Num}

  -- the steps that the run has not completed
  abbrev pub left : (String → Bool) → List PlanStep → List PlanStep
  left done = select (λ s. not (done s.step_id))

  module _ (Q : PlanStep → Type 0) where
    -- the calls are the first of `todo`, each obeys `Q`, and they are all of `todo` if the run is
    -- completed
    pub record Calls (todo before : List PlanStep) (r : RunOutcome Num × RunDb) : Type 0 where
      pub made : List PlanStep
      pub rest : List PlanStep
      pub split : todo ≡ made ++ rest
      pub calls : r.1.calls ≡ before ++ made
      pub called : All Q made
      pub finished : r.0.status ≡ completed → rest ≡ []

    no_calls :
        (todo before : List PlanStep) (r : RunOutcome Num × RunDb)
        → r.1.calls ≡ before
        → r.0.status ≢ completed
        → Calls todo before r
    no_calls todo before r e stopped = record {
      made = [];
      rest = todo;
      split = refl;
      calls = e ∙ sym (append-nil before);
      called = tt;
      finished = λ e. absurd (stopped e);
    }

    one_call :
        (step : PlanStep) (todo before : List PlanStep) (r : RunOutcome Num × RunDb)
        → Q step
        → r.1.calls ≡ before ++ step ∷ []
        → r.0.status ≢ completed
        → Calls (step ∷ todo) before r
    one_call step todo before r ok e stopped = record {
      made = step ∷ [];
      rest = todo;
      split = refl;
      calls = e;
      called = (ok, tt);
      finished = λ e. absurd (stopped e);
    }

    next_call :
        (step : PlanStep) (todo before : List PlanStep) (r : RunOutcome Num × RunDb)
        → Q step
        → Calls todo (before ++ step ∷ []) r
        → Calls (step ∷ todo) before r
    next_call step todo before r ok c = record {
      made = step ∷ c.made;
      rest = c.rest;
      split = ap (λ xs. step ∷ xs) c.split;
      calls = c.calls ∙ append_assoc before (step ∷ []) c.made;
      called = (ok, c.called);
      finished = c.finished;
    }

  module _ (opts : ExecuteOptions Num) (owner : ℕ) (run : String) (decisions : List StepDecision)
      (done : String → Bool) where
    -- a step that the loop may call
    abbrev IsCalled : PlanStep → Type 0
    IsCalled s = (done s.step_id ≡ false) × (must_wait decisions opts.approvals s ≡ false)

    module _ (Q : PlanStep → Type 0) where
      after_reply-Calls :
          (next : Honesty Num → RunDb → RunOutcome Num × RunDb) (step : PlanStep)
          (todo : List PlanStep) (reply : Reply Num) (honesty : Honesty Num) (db : RunDb)
          → Q step
          → ((h : Honesty Num) (db : RunDb) → Calls Q todo db.calls (next h db))
          → Calls Q
              (step ∷ todo)
              db.calls
              (after_reply R opts owner run next step reply honesty (call R opts owner run step db))
      unfolding after_reply finish_blocked finish_run
      after_reply-Calls next step todo throws honesty db ok ih =
          one_call Q step todo db.calls _ ok refl (λ e. cc)
      after_reply-Calls next step todo (returns result) honesty db ok ih =
          elim (Bool-cases result.is_error) [
            | inl failed ↦ rw failed (one_call Q step todo db.calls _ ok refl (λ e. cc))
            | inr fine ↦ rw fine (elim (Bool-cases (has_hard_blocks result.honesty)) [
              | inl risky ↦ rw risky (one_call Q step todo db.calls _ ok refl (λ e. cc))
              | inr safe ↦
                  rw safe
                    (elim (Bool-cases (
                      str_eq step.tool "data_coverage"
                      && below_floor R opts.coverage_floor (coverage_value result.honesty))) [
                        | inl thin ↦ rw thin (one_call Q step todo db.calls _ ok refl (λ e. cc))
                        | inr covered ↦ rw covered (next_call Q step todo db.calls _ ok (ih _ _))
                      ])
            ])
          ]

      run_steps-Calls :
          (steps : List PlanStep) (honesty : Honesty Num) (db : RunDb)
          → ((s : PlanStep) → IsCalled s → Q s)
          → Calls Q
              (left done steps)
              db.calls
              (run_steps R opts owner run decisions done steps honesty db)
      unfolding run_steps finish_run request_approval
      run_steps-Calls [] honesty db ok = record {
        made = [];
        rest = [];
        split = refl;
        calls = sym (append-nil db.calls);
        called = tt;
        finished = λ e. refl;
      }
      run_steps-Calls (step ∷ steps) honesty db ok = elim (Bool-cases (done step.step_id)) [
        | inl over ↦ rw over (run_steps-Calls steps honesty db ok)
        | inr open_step ↦
            rw open_step (elim (Bool-cases (must_wait decisions opts.approvals step)) [
              | inl waits ↦
                  rw waits
                    (no_calls Q _ db.calls _ (request_approval-calls owner run step _) (λ e. cc))
              | inr free ↦ rw free (
                  after_reply-Calls _ step _ _ honesty db (ok step (open_step, free))
                    (λ h db. run_steps-Calls steps h db ok))
            ])
      ]

  module _ (opts : ExecuteOptions Num) (db : RunDb) where
    abbrev owner_of : ℕ
    owner_of = opts.plan.owner_id

    abbrev pub guard_of : GuardrailResult
    guard_of = validate_plan R none opts.plan

    abbrev pub done_before : String → Bool
    done_before = is_done owner_of (run_of R opts) db.steps

    -- what holds of a step that `executePlan` calls
    pub record IsCleared (step : PlanStep) : Type 0 where
      pub not_l0 : is_l0 opts.plan.autonomy_level ≡ false
      pub accepted : guard_of.ok ≡ true
      pub not_done : done_before step.step_id ≡ false
      pub need_not_wait : must_wait guard_of.decisions opts.approvals step ≡ false

    open_run-keeps :
        ((open_run R opts db).calls ≡ db.calls) × ((open_run R opts db).steps ≡ db.steps)
    unfolding create_run
    open_run-keeps = elim (Option-cases opts.run_id) [
      | inl new ↦ rw (new, open_run) (refl, refl)
      | inr (id, e) ↦ rw (e, open_run) (refl, refl)
    ]

    abbrev pub Run : RunOutcome Num × RunDb → Type 0
    Run r = Calls IsCleared (left done_before opts.plan.steps) db.calls r

    run_guarded-Run :
        Run (run_guarded R opts owner_of (run_of R opts) guard_of (open_run R opts db))
    unfolding run_guarded finish_run
    run_guarded-Run =
        let (calls_kept, steps_kept) = open_run-keeps in
        elim (Bool-cases (is_l0 opts.plan.autonomy_level)) [
          | inl low ↦ rw (low, run_guarded) (no_calls IsCleared _ db.calls _ calls_kept (λ e. cc))
          | inr high ↦ elim (Bool-cases guard_of.ok) [
            | inr refused ↦
                rw (high, run_guarded, refused)
                  (no_calls IsCleared _ db.calls _ calls_kept (λ e. cc))
            | inl accepted ↦
                rw (high, run_guarded, accepted)
                  (subst
                    (λ rows. Calls IsCleared (left done_before opts.plan.steps) db.calls (
                      run_steps R opts owner_of (run_of R opts) guard_of.decisions
                        (is_done owner_of (run_of R opts) rows) opts.plan.steps []
                        (open_run R opts db)))
                    (sym steps_kept)
                    (subst
                      (λ calls. Calls IsCleared (left done_before opts.plan.steps) calls (
                        run_steps R opts owner_of (run_of R opts) guard_of.decisions done_before
                          opts.plan.steps [] (open_run R opts db)))
                      calls_kept
                      (run_steps-Calls opts owner_of (run_of R opts) guard_of.decisions done_before
                        IsCleared opts.plan.steps [] (open_run R opts db)
                        (λ s ok. record {
                          not_l0 = high;
                          accepted = accepted;
                          not_done = ok.0;
                          need_not_wait = ok.1;
                        }))))
          ]
        ]

    pub execute_plan-Run : Run (execute_plan R opts db)
    unfolding execute_plan
    execute_plan-Run = run_guarded-Run
