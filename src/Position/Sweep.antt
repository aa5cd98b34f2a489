-- ===== src/Position/Sweep.antt =====
-- positions/monitor.ts: the loops over the open positions, `sweepOpenPositions` and `onMark`.
use arivion.Prelude.{ℕ, suc, String, Bool, ◌||◌, none, some, List, [], ◌∷◌, if◌then◌else◌}
use arivion.Exit.Real.{Real}
use arivion.Position.Store.{PositionIntent, list_open_intents_for_sweep}
use arivion.Position.Monitor.{TickResult, World, ExitEnv, evaluate_intent}

module _ (R : Real) where
  open R use {Num}

  -- the loop of `sweepOpenPositions`; the `i`-th exit finds the environment `env i`
  unfoldable pub sweep :
      (ℕ → ExitEnv Num)
      → ℕ
      → List (PositionIntent Num)
      → ℕ
      → World Num
      → List TickResult × World Num
  unfolding evaluate_intent
  sweep env now [] i w = ([], w)
  sweep env now (intent ∷ intents) i w =
      let mark : Num = elim intent.last_mark [ none ↦ intent.entry_price | some m ↦ m ] in
      let (result, w') = evaluate_intent R (env i) intent mark now w in
      let (results, w'') = sweep env now intents (suc i) w' in (result ∷ results, w'')

  unfoldable pub sweep_open_positions :
      Bool → (ℕ → ExitEnv Num) → ℕ → World Num → List TickResult × World Num
  unfolding sweep
  sweep_open_positions global_kill env now w =
      if global_kill
      then ([], w)
      else sweep env now (list_open_intents_for_sweep none w.positions) 0 w

  -- the loop of `onMark`; `enabled` says which owners' agents may act
  unfoldable on_mark_loop :
      (ℕ → Bool)
      → (ℕ → ExitEnv Num)
      → Num
      → ℕ
      → List (PositionIntent Num)
      → ℕ
      → World Num
      → List TickResult × World Num
  unfolding evaluate_intent
  on_mark_loop enabled env mark now [] i w = ([], w)
  on_mark_loop enabled env mark now (intent ∷ intents) i w =
      let skip = on_mark_loop enabled env mark now intents (suc i) w in
      let (result, w') = evaluate_intent R (env i) intent mark now w in
      let (results, w'') = on_mark_loop enabled env mark now intents (suc i) w' in
      if enabled intent.owner_id then (result ∷ results, w'') else skip

  -- `onMark`; a number of the model is finite
  unfoldable on_mark :
      Bool
      → (ℕ → Bool)
      → (ℕ → ExitEnv Num)
      → String
      → Num
      → ℕ
      → World Num
      → List TickResult × World Num
  unfolding on_mark_loop
  on_mark global_kill enabled env symbol mark now w =
      if global_kill || R.le mark R.zero
      then ([], w)
      else on_mark_loop enabled env mark now (list_open_intents_for_sweep (some symbol) w.positions)
          0 w
