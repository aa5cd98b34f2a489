-- ===== src/Position/Sweeps.antt =====
-- What the sweeps of positions/monitor.ts leave, from the steps that their ticks take.
use arivion.Prelude.{
  ℕ, suc, String, ◌≡◌, ◌≢◌, refl, sym, ap, ◌∙◌, Bool, Option, none, some, List, [], ◌∷◌, if-case,
  arith,
}
use arivion.Exit.Real.{Real}
use arivion.Position.Store.{
  IntentState, opened, closing, closed, PositionIntent, PositionDb, list_open_intents_for_sweep,
}
use arivion.Position.Steps.{System, Steps, stop, step, state_of}
use arivion.Position.Race.{closings, IsExclusive}
use arivion.Position.Lifecycle.{later-IsExclusive}
use arivion.Position.Monitor.{TickResult, World, ExitEnv, evaluate_intent}
use arivion.Position.Sweep.{sweep, sweep_open_positions}
use arivion.Position.Ticks.{evaluate_intent-Steps}

then_steps : {N : Type 0} (s t u : System N) → Steps N s t → Steps N t u → Steps N s u
then_steps s t u (stop r) more = more
then_steps s t u (step r v w one rest) more = step s v u one (then_steps v t u rest more)

zero_not_one : ◌≢◌ {A = ℕ} 0 1
zero_not_one h = omega arith

closings_none : (s : Option IntentState) → s ≢ some closing → closings s ≡ 0
closings_none none h = refl
closings_none (some opened) h = refl
closings_none (some closing) h = absurd (h refl)
closings_none (some closed) h = refl

module _ {N : Type 0} where
  unheld-IsExclusive :
      (db : PositionDb N)
      → ((k : String) → state_of k db ≢ some closing)
      → IsExclusive N (record { db = db; held = [] })
  unfolding IsExclusive
  unheld-IsExclusive db none_closing id = sym (closings_none (state_of id db) (none_closing id))

  still_held :
      (db : PositionDb N) (id : String)
      → IsExclusive N (record { db = db; held = [] })
      → state_of id db ≢ some closing
  unfolding IsExclusive
  still_held db id inv e = absurd (zero_not_one (inv id ∙ ap closings e))

module _ (R : Real) where
  open R use {Num}

  sweep-Steps :
      (env : ℕ → ExitEnv Num) (now : ℕ) (intents : List (PositionIntent Num)) (i : ℕ)
      (w : World Num)
      → Steps Num
          (record { db = w.positions; held = [] })
          (record { db = (sweep R env now intents i w).1.positions; held = [] })
  unfolding sweep
  sweep-Steps env now [] i w = stop _
  sweep-Steps env now (intent ∷ intents) i w =
      let mark : Num = elim intent.last_mark [ none ↦ intent.entry_price | some m ↦ m ] in
      let (result, w') = evaluate_intent R (env i) intent mark now w in
      then_steps _ (record { db = w'.positions; held = [] }) _
        (evaluate_intent-Steps R (env i) intent mark now w [])
        (sweep-Steps env now intents (suc i) w')

  -- After a sweep no position is left in the state "closing", whether its exits succeed, fail or
  -- throw: each is open or closed. Condition: none is being closed when the sweep starts.
  pub sweep_leaves_none_closing :
      (global_kill : Bool) (env : ℕ → ExitEnv Num) (now : ℕ) (w : World Num) (id : String)
      → ((k : String) → state_of k w.positions ≢ some closing)
      → state_of id (sweep_open_positions R global_kill env now w).1.positions ≢ some closing
  unfolding sweep_open_positions
  sweep_leaves_none_closing global_kill env now w id none_closing =
      if-case {A = List TickResult × World Num} (λ z. state_of id z.1.positions ≢ some closing)
        global_kill _ _ (λ off. none_closing id)
        (λ on e.
          let t : System Num = record {
            db = (sweep R env now (list_open_intents_for_sweep none w.positions) 0 w).1.positions;
            held = [];
          } in
          let left =
            later-IsExclusive Num (record { db = w.positions; held = [] }) t
              (sweep-Steps env now (list_open_intents_for_sweep none w.positions) 0 w)
              (unheld-IsExclusive w.positions none_closing) in
          still_held t.db id left e)
