-- ===== src/Risk/Breakers.antt =====
-- risk/index.ts: `computeCVaR` and `evaluateBreakers`. A reason is the test that gave it.
use arivion.Prelude.{
  ℕ, zero, suc, max, Option, none, some, List, [], ◌∷◌, length, leb, if◌then◌else◌,
}
use arivion.Exit.Real.{Real}

pub data RiskState : Type 0 where
  normal risk_averse halted : RiskState

-- `rank`
abbrev pub rank : RiskState → ℕ
rank normal = 0
rank risk_averse = 1
rank halted = 2

pub data Reason : Type 0 where
  drawdown loss_streak tail_risk : Reason

pub record BreakerInputs (N : Type 0) : Type 0 where
  pub consecutive_losses : ℕ
  pub recent_returns : List N
  pub worst_drawdown : N

pub record BreakerVerdict : Type 0 where
  pub state : RiskState
  pub reason : Option Reason

-- The part of `config` that the breakers read. Doubles are a parameter: `tail_of n` is
-- `Math.floor(n * 0.1)`, and `of_count k` is the double `k`.
pub record RiskConfig (N : Type 0) : Type 0 where
  pub halt_drawdown_pct : N
  pub halt_consecutive_losses : ℕ
  pub averse_cvar_pct : N
  pub averse_consecutive_losses : ℕ
  pub cooldown_seconds : ℕ
  pub tail_of : ℕ → ℕ
  pub of_count : ℕ → N

module _ (R : Real) where
  open R use {Num, le, add, div, negate}

  unfoldable insert_sorted : Num → List Num → List Num
  insert_sorted x [] = x ∷ []
  insert_sorted x (y ∷ ys) =
      let rest = insert_sorted x ys in if le x y then x ∷ y ∷ ys else y ∷ rest

  -- `[...returns].sort((a, b) => a - b)`
  unfoldable pub sorted : List Num → List Num
  unfolding insert_sorted
  sorted [] = []
  sorted (x ∷ xs) = insert_sorted x (sorted xs)

  -- the loop over the first `k`, from `sum`
  unfoldable sum_first : ℕ → Num → List Num → Num
  sum_first zero sum xs = sum
  sum_first (suc k) sum [] = sum
  sum_first (suc k) sum (x ∷ xs) = sum_first k (add sum x) xs

  unfoldable pub compute_cvar : RiskConfig Num → List Num → Num
  unfolding sorted sum_first
  compute_cvar config [] = R.zero
  compute_cvar config (x ∷ xs) =
      let k = max 1 (config.tail_of (length (x ∷ xs))) in
      div (sum_first k R.zero (sorted (x ∷ xs))) (config.of_count k)

  unfoldable pub evaluate_breakers : RiskConfig Num → BreakerInputs Num → BreakerVerdict
  evaluate_breakers config inp =
      if le config.halt_drawdown_pct inp.worst_drawdown
      then record { state = halted; reason = some drawdown }
      else if leb config.halt_consecutive_losses inp.consecutive_losses
      then record { state = halted; reason = some loss_streak }
      else if le (compute_cvar config inp.recent_returns) (negate config.averse_cvar_pct)
      then record { state = risk_averse; reason = some tail_risk }
      else if leb config.averse_consecutive_losses inp.consecutive_losses
      then record { state = risk_averse; reason = some loss_streak }
      else record { state = normal; reason = none }
