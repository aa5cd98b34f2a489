-- ===== src/Position/Stops.antt =====
-- The stop that positions/monitor.ts leaves in the table after one evaluation.
use mathlib.Core.Option
use arivion.Prelude.{
  ℕ, String, ◌≡◌, refl, ap, ◌∙◌, true, Option, none, some, str_eq_refl, Bool-cases, Option-cases,
  eq_of_some-eq, ◌⊎◌, inl, inr,
}
use arivion.Exit.Real.{Real}
use arivion.Exit.Policy.{PositionRuntime, Action, hold, reduce, close, ExitDecision}
use arivion.Exit.Evaluate.{evaluate_exit}
use arivion.Exit.Ratchet.{tight, tight_refl, Ratchets, stop_never_loosens}
use arivion.Run.Runner.{execute_plan}
use arivion.Position.Store.{
  opened, closing, is_open, is_closing, PositionIntent, PositionDb, put_row, mark_closed,
  release_claim, filled, claim_for_closing, update_runtime,
}
use arivion.Position.Monitor.{
  TickResult, World, ExitEnv, is_exit, to_view, exit_options, after_closed, close_row, after_run,
  exit_claimed, reason_or, act, evaluate_intent,
}

module _ {N : Type 0} where
  abbrev runtime_of : String → PositionDb N → Option (PositionRuntime N)
  runtime_of id db = Option.map (λ r. r.runtime) (db.row id)

  runtime-put_row :
      (id : String) (r : PositionIntent N) (db : PositionDb N)
      → runtime_of id (put_row id r db) ≡ some r.runtime
  runtime-put_row id r db = rw (str_eq_refl id) refl

  runtime-claim :
      (id : String) (db : PositionDb N)
      → runtime_of id (claim_for_closing id db).1 ≡ runtime_of id db
  unfolding claim_for_closing
  runtime-claim id db = elim (Option-cases (db.row id)) [
    | inl absent ↦ rw (absent, claim_for_closing) (ap (Option.map (λ r. r.runtime)) absent)
    | inr (r, at) ↦ elim (Bool-cases (is_open r.state)) [
      | inl e ↦ rw (at, claim_for_closing, e) (runtime-put_row id (record r { state = closing }) db)
      | inr e ↦ rw (at, claim_for_closing, e) (ap (Option.map (λ r. r.runtime)) at)
    ]
  ]

  runtime-mark_closed :
      (id reason : String) (now : ℕ) (mark ret : N) (run : Option String) (db : PositionDb N)
      → runtime_of id (mark_closed now id reason mark ret run db) ≡ runtime_of id db
  unfolding mark_closed
  runtime-mark_closed id reason now mark ret run db = elim (Option-cases (db.row id)) [
    | inl absent ↦ rw (absent, mark_closed) (ap (Option.map (λ r. r.runtime)) absent)
    | inr (r, at) ↦ rw (at, mark_closed, str_eq_refl id) refl
  ]

  runtime-release :
      (id : String) (db : PositionDb N) → runtime_of id (release_claim id db) ≡ runtime_of id db
  unfolding release_claim
  runtime-release id db = elim (Option-cases (db.row id)) [
    | inl absent ↦ rw (absent, release_claim) (ap (Option.map (λ r. r.runtime)) absent)
    | inr (r, at) ↦ elim (Bool-cases (is_closing r.state)) [
      | inl e ↦ rw (at, release_claim, e) (runtime-put_row id (record r { state = opened }) db)
      | inr e ↦ rw (at, release_claim, e) (ap (Option.map (λ r. r.runtime)) at)
    ]
  ]

  runtime-update :
      (id : String) (runtime : PositionRuntime N) (mark : N) (r : PositionIntent N)
      (db : PositionDb N)
      → db.row id ≡ some r
      → runtime_of id (update_runtime id runtime mark db) ≡ some runtime
  unfolding update_runtime
  runtime-update id runtime mark r db at =
      rw (at, update_runtime)
        (runtime-put_row id (record r { runtime = runtime; last_mark = some mark }) db)

stop_from :
    {N : Type 0} (row : Option (PositionIntent N)) (rt : PositionRuntime N)
    → Option.map (λ r. r.runtime) row ≡ some rt
    → Option.map (λ r. r.runtime.current_stop_price) row ≡ some rt.current_stop_price
stop_from none rt e = cc
stop_from (some r) rt e = ap some (ap (λ rt. rt.current_stop_price) (eq_of_some-eq e))

module _ (R : Real) where
  open R use {Num}

  -- the position has a stop in the table, and it protects at least as well as `stop`
  abbrev pub LeavesStop : PositionIntent Num → Num → PositionDb Num → Type 0
  LeavesStop intent stop db =
      (s : Num) × (Option.map (λ r. r.runtime.current_stop_price) (db.row intent.id)
        ≡ some (some s))
      × (tight R intent.side stop s ≡ true)

  module _ (env : ExitEnv Num) (intent : PositionIntent Num) (mark : Num)
      (d : ExitDecision Num) where
    -- a result that leaves the runtime of the position as it is in a table
    abbrev Keeps : PositionDb Num → TickResult × World Num → Type 0
    Keeps db r = runtime_of intent.id r.1.positions ≡ runtime_of intent.id db

    after_closed-Keeps :
        (run : Option String) (w : World Num)
        → Keeps w.positions
            (after_closed R env intent mark d run (close_row R env intent mark d run w))
    unfolding after_closed
    after_closed-Keeps run w =
        let at_close =
          runtime-mark_closed intent.id (reason_or d.reason "close") env.closed_at mark d.unrealized
            run w.positions in
        elim (Bool-cases env.event_written) [
          | inl written ↦ rw written at_close
          | inr lost ↦
              rw lost (
                runtime-release intent.id (close_row R env intent mark d run w).positions
                ∙ at_close)
        ]

    exit_claimed-Keeps : (w : World Num) → Keeps w.positions (exit_claimed R env intent mark d w)
    unfolding exit_claimed after_run
    exit_claimed-Keeps w = elim (Option-cases (filled intent.session_id)) [
      | inl local ↦ rw (local, exit_claimed) (after_closed-Keeps none w)
      | inr (session, s) ↦ elim (Option-cases env.thread) [
        | inl thrown ↦ rw (s, exit_claimed, thrown) (runtime-release intent.id w.positions)
        | inr (thread, t) ↦
            let (outcome, runs) = execute_plan R (exit_options R env intent thread) w.runs in
            elim (Bool-cases (is_exit outcome.status)) [
              | inl exit ↦
                  rw (s, exit_claimed, t, exit)
                    (after_closed-Keeps (some outcome.run_id) (record w { runs = runs }))
              | inr failed ↦ rw (s, exit_claimed, t, failed) (runtime-release intent.id w.positions)
            ]
      ]
    ]

    act_runtime :
        (action : Action) (r : PositionIntent Num) (w : World Num)
        → w.positions.row intent.id ≡ some r
        → (runtime_of intent.id (act R env intent mark d action w).1.positions
            ≡ some d.next_runtime)
          ⊎ (runtime_of intent.id (act R env intent mark d action w).1.positions ≡ some r.runtime)
    unfolding act
    act_runtime hold r w at = inl (runtime-update intent.id d.next_runtime mark r w.positions at)
    act_runtime reduce r w at = inl (runtime-update intent.id d.next_runtime mark r w.positions at)
    act_runtime close r w at =
        let claimed = (claim_for_closing intent.id w.positions).1 in
        let kept = runtime-claim intent.id w.positions ∙ ap (Option.map (λ r. r.runtime)) at in
        inr (elim (Bool-cases (claim_for_closing intent.id w.positions).0) [
          | inl won ↦ rw won (exit_claimed-Keeps (record w { positions = claimed }) ∙ kept)
          | inr lost ↦ rw lost kept
        ])

    act-LeavesStop :
        (stop s : Num) (w : World Num)
        → w.positions.row intent.id ≡ some intent
        → intent.runtime.current_stop_price ≡ some stop
        → d.next_runtime.current_stop_price ≡ some s
        → tight R intent.side stop s ≡ true
        → LeavesStop intent stop (act R env intent mark d d.action w).1.positions
    act-LeavesStop stop s w at was next tighter = elim (act_runtime d.action intent w at) [
      | inl e ↦ (
        s,
        stop_from ((act R env intent mark d d.action w).1.positions.row intent.id) d.next_runtime e
            ∙ ap some next,
        tighter,
      )
      | inr e ↦ (
        stop,
        stop_from ((act R env intent mark d d.action w).1.positions.row intent.id) intent.runtime e
            ∙ ap some was,
        tight_refl R intent.side stop,
      )
    ]

  -- Whatever `evaluateIntent` does with an open position, be it a hold, a ratchet, a lost claim, an
  -- exit or an exit that fails, the stop in the table is then at least as tight as before: never
  -- lower for a long, never higher for a short. Conditions: the tick has read the row as it is in
  -- the table, its stop is set, and a trailing stop, if there is one, ratchets.
  pub stored_stop_never_loosens :
      (env : ExitEnv Num) (intent : PositionIntent Num) (mark stop : Num) (now : ℕ) (w : World Num)
      → w.positions.row intent.id ≡ some intent
      → intent.runtime.current_stop_price ≡ some stop
      → Ratchets R intent.exit_policy.trailing
      → LeavesStop intent stop (evaluate_intent R env intent mark now w).1.positions
  unfolding evaluate_intent
  stored_stop_never_loosens env intent mark stop now w at was ratchets =
      elim (Option-cases (evaluate_exit R (to_view R intent) mark now)) [
        | inl thrown ↦
            rw (thrown, evaluate_intent)
              (
                stop,
                ap (Option.map (λ r. r.runtime.current_stop_price)) at ∙ ap some was,
                tight_refl R intent.side stop,
              )
        | inr (d, e) ↦
            let (s, next, tighter) =
              stop_never_loosens R (to_view R intent) mark now d ratchets e in
            rw (e, evaluate_intent)
              (act-LeavesStop env intent mark d stop s w at was next (rw was at tighter))
      ]
