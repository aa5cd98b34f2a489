-- ===== src/Position/Ticks.antt =====
-- `evaluateIntent` (positions/monitor.ts), run to its end, as steps of the ticks.
use mathlib.Core.Path.{subst}
use arivion.Prelude.{
  ℕ, ◌≤◌, String, ◌≡◌, refl, sym, ◌∙◌, Option, none, some, List, ◌∷◌, str_eq_refl, arith,
  Bool-cases, Option-cases, inl, inr,
}
use arivion.Exit.Real.{Real}
use arivion.Exit.Policy.{Action, hold, reduce, close, ExitDecision}
use arivion.Exit.Evaluate.{evaluate_exit}
use arivion.Run.Runner.{RunOutcome, execute_plan}
use arivion.Position.Store.{
  closing, closed, PositionIntent, PositionDb, release_claim, filled, claim_for_closing,
}
use arivion.Position.Steps.{
  System, advances, logs, wins, loses, closes, releases, releases_late, Steps, stop, step, let_go,
  holders, state_of,
}
use arivion.Position.States.{put_state_self, won_claim, state_of-mark_closed}
use arivion.Position.Monitor.{
  TickResult, World, ExitEnv, is_exit, to_view, exit_options, retry_later, after_closed, close_row,
  after_run, exit_claimed, reduce_event, close_event, reason_or, act, evaluate_intent,
}

let_go_self : (id : String) (held : List String) → let_go id (id ∷ held) ≡ held
unfolding let_go
let_go_self id held = rw (str_eq_refl id) refl

module _ (R : Real) where
  open R use {Num}

  module _ (env : ExitEnv Num) (intent : PositionIntent Num) (mark : Num) (d : ExitDecision Num)
      (held : List String) where
    -- the end of a tick that holds the position
    abbrev Ends : PositionDb Num → TickResult × World Num → Type 0
    Ends db r =
        Steps Num (record { db = db; held = intent.id ∷ held })
          (record { db = r.1.positions; held = held })

    holds : 1 ≤ holders intent.id (intent.id ∷ held)
    holds = rw (str_eq_refl intent.id) (omega arith)

    retry_later-Ends :
        (run : Option String) (w : World Num) → Ends w.positions (retry_later R intent d run w)
    retry_later-Ends run w = step _ _ _ (releases intent.id w.positions (intent.id ∷ held) holds) (
        subst
          (λ h.
            Steps Num (record { db = release_claim intent.id w.positions; held = h })
              (record { db = release_claim intent.id w.positions; held = held }))
          (sym (let_go_self intent.id held)) (stop _))

    closed_row :
        (run : Option String) (w : World Num)
        → state_of intent.id w.positions ≡ some closing
        → state_of intent.id (close_row R env intent mark d run w).positions ≡ some closed
    closed_row run w was =
        let now_closed =
          state_of-mark_closed intent.id intent.id (reason_or d.reason "close") env.closed_at mark
            d.unrealized run w.positions in
        now_closed ∙ rw (str_eq_refl intent.id, was) refl

    -- once the position is closed, no claim is held on it
    close_then :
        (run : Option String) (w : World Num) (t : System Num)
        → Steps Num (record { db = (close_row R env intent mark d run w).positions; held = held }) t
        → Steps Num (record { db = w.positions; held = intent.id ∷ held }) t
    close_then run w t more =
        let one =
          closes intent.id (reason_or d.reason "close") env.closed_at mark d.unrealized run
            w.positions (intent.id ∷ held) holds in
        step _ _ t one (
          subst
            (λ h.
              Steps Num (record { db = (close_row R env intent mark d run w).positions; held = h })
                t)
            (sym (let_go_self intent.id held)) more)

    after_closed-Ends :
        (run : Option String) (w : World Num)
        → state_of intent.id w.positions ≡ some closing
        → Ends w.positions
            (after_closed R env intent mark d run (close_row R env intent mark d run w))
    unfolding after_closed
    after_closed-Ends run w was = elim (Bool-cases env.event_written) [
      | inl written ↦
          rw written (
            close_then run w _
              (step _ _ _ (logs (close_event R intent mark d run) _ held) (stop _)))
      | inr lost ↦ rw lost (
          close_then run w _
            (step _ _ _ (releases_late intent.id _ held (closed_row run w was)) (stop _)))
    ]

    after_run-Ends :
        (outcome : RunOutcome Num) (w : World Num)
        → state_of intent.id w.positions ≡ some closing
        → Ends w.positions (after_run R env intent mark d outcome w)
    unfolding after_run
    after_run-Ends outcome w was = elim (Bool-cases (is_exit outcome.status)) [
      | inl exit ↦ rw exit (after_closed-Ends (some outcome.run_id) w was)
      | inr failed ↦ rw failed (retry_later-Ends (some outcome.run_id) w)
    ]

    exit_claimed-Ends :
        (w : World Num)
        → state_of intent.id w.positions ≡ some closing
        → Ends w.positions (exit_claimed R env intent mark d w)
    unfolding exit_claimed
    exit_claimed-Ends w was = elim (Option-cases (filled intent.session_id)) [
      | inl local ↦ rw (local, exit_claimed) (after_closed-Ends none w was)
      | inr (session, s) ↦ elim (Option-cases env.thread) [
        | inl thrown ↦ rw (s, exit_claimed, thrown) (retry_later-Ends none w)
        | inr (thread, t) ↦
            let (outcome, runs) = execute_plan R (exit_options R env intent thread) w.runs in
            rw (s, exit_claimed, t) (after_run-Ends outcome (record w { runs = runs }) was)
      ]
    ]

    abbrev Ticks : PositionDb Num → TickResult × World Num → Type 0
    Ticks db r =
        Steps Num (record { db = db; held = held }) (record { db = r.1.positions; held = held })

    act-Ticks :
        (action : Action) (w : World Num) → Ticks w.positions (act R env intent mark d action w)
    unfolding act
    act-Ticks hold w = step _ _ _ (advances intent.id d.next_runtime mark w.positions held) (stop _)
    act-Ticks reduce w =
        step _ _ _ (advances intent.id d.next_runtime mark w.positions held)
          (step _ _ _ (logs (reduce_event R intent mark d) _ held) (stop _))
    act-Ticks close w = elim (Bool-cases (claim_for_closing intent.id w.positions).0) [
      | inl won ↦
          let claimed = record w { positions = (claim_for_closing intent.id w.positions).1 } in
          rw won (
            step _ _ _ (wins intent.id w.positions held won) (
              exit_claimed-Ends claimed (
                (won_claim intent.id w.positions won).1 intent.id
                ∙ put_state_self intent.id (some closing) w.positions)))
      | inr lost ↦ rw lost (step _ _ _ (loses intent.id w.positions held lost) (stop _))
    ]

  -- What `evaluateIntent` does to the positions, on every branch, is a sequence of the steps that
  -- the theorems on interleaved ticks are about, and it ends without a claim of its own.
  pub evaluate_intent-Steps :
      (env : ExitEnv Num) (intent : PositionIntent Num) (mark : Num) (now : ℕ) (w : World Num)
      (held : List String)
      → Steps Num
          (record { db = w.positions; held = held })
          (record { db = (evaluate_intent R env intent mark now w).1.positions; held = held })
  unfolding evaluate_intent
  evaluate_intent-Steps env intent mark now w held =
      elim (Option-cases (evaluate_exit R (to_view R intent) mark now)) [
        | inl thrown ↦ rw (thrown, evaluate_intent) (stop _)
        | inr (d, e) ↦ rw (e, evaluate_intent) (act-Ticks env intent mark d held d.action w)
      ]
