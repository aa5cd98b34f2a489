-- ===== src/Risk/Status.antt =====
-- risk/index.ts: the risk columns of agent_owner_settings, and the functions that read and write
-- them. Times are milliseconds since the epoch. Each `Date.now()` is an argument.
use arivion.Prelude.{
  ℕ, suc, ◌+◌, ◌*◌, Bool, true, false, not, ◌&&◌, Option, none, some, List, [], ◌∷◌, ◌==◌, leb, ltb,
  if◌then◌else◌, take,
}
use mathlib.Core.List.{reverse}
use arivion.Exit.Real
use arivion.Exit.Real.{Real}
use arivion.Risk.Breakers.{
  RiskState, normal, risk_averse, halted, rank, Reason, RiskConfig, BreakerVerdict,
  evaluate_breakers,
}

-- `RiskStatus`, and a row's risk columns
pub record RiskStatus : Type 0 where
  pub state : RiskState
  pub reason : Option Reason
  pub cooldown_until : Option ℕ

-- the settings table, by owner
abbrev pub Settings : Type 0
Settings = ℕ → Option RiskStatus

abbrev pub calm : RiskStatus
calm = record { state = normal; reason = none; cooldown_until = none }

abbrev pub put : ℕ → RiskStatus → Settings → Settings
put owner status settings o = if o == owner then some status else settings o

abbrev pub is_normal : RiskState → Bool
is_normal normal = true
is_normal risk_averse = false
is_normal halted = false

-- `row.risk_state !== "normal" && until && now >= until`; a missing time and the time 0 are falsy.
abbrev pub expired : RiskStatus → ℕ → Bool
expired row now = elim row.cooldown_until [
  | none ↦ false
  | some until ↦ not (is_normal row.state) && not (until == 0) && leb until now
]

unfoldable pub read_row : ℕ → ℕ → Option RiskStatus → Settings → RiskStatus × Settings
read_row now owner none settings = (calm, settings)
read_row now owner (some row) settings =
    if expired row now then (calm, put owner calm settings) else (row, settings)

unfoldable pub get_risk_state : ℕ → ℕ → Settings → RiskStatus × Settings
unfolding read_row
get_risk_state now owner settings = read_row now owner (settings owner) settings

unfoldable pub set_risk_state : ℕ → ℕ → RiskState → Option Reason → ℕ → Settings → Settings
set_risk_state now owner state reason cooldown_seconds settings =
    put owner
      (record {
        state = state;
        reason = reason;
        cooldown_until =
            if not (is_normal state) && not (cooldown_seconds == 0)
            then some (now + cooldown_seconds * 1000)
            else none;
      })
      settings

module _ (R : Real) where
  open R use {Num, le, negate}

  -- the loop from the last return backwards, over the returns newest first
  unfoldable loss_streak_of : List Num → ℕ
  loss_streak_of [] = 0
  loss_streak_of (x ∷ xs) = let rest = loss_streak_of xs in if le R.zero x then 0 else suc rest

  -- `Math.min(least, ...returns)`
  unfoldable pub least : Num → List Num → Num
  least m [] = m
  least m (x ∷ xs) = least (Real.min R m x) xs

  -- `Math.abs(Math.min(0, ...returns))`
  unfoldable worst_drawdown_of : List Num → Num
  unfolding least
  worst_drawdown_of xs =
      let worst = least R.zero xs in if le R.zero worst then worst else negate worst

  -- `closed` holds the realized returns of the owner's closed positions, newest first.
  unfoldable pub verdict_of : RiskConfig Num → List Num → BreakerVerdict
  unfolding loss_streak_of worst_drawdown_of
  verdict_of config closed =
      let returns = reverse (take 30 closed) in
      evaluate_breakers R config (record {
        consecutive_losses = loss_streak_of (reverse returns);
        recent_returns = returns;
        worst_drawdown = worst_drawdown_of returns;
      })

  unfoldable pub refresh_risk_state :
      RiskConfig Num
      → List Num
      → (read_at write_at return_at : ℕ) → ℕ
      → Settings
      → RiskStatus × Settings
  unfolding get_risk_state set_risk_state
  refresh_risk_state config closed read_at write_at return_at owner settings =
      let verdict = verdict_of config closed in
      let (current, settings') = get_risk_state read_at owner settings in
      if ltb (rank current.state) (rank verdict.state)
      then (
        record {
          state = verdict.state;
          reason = verdict.reason;
          cooldown_until = some (return_at + config.cooldown_seconds * 1000);
        },
        set_risk_state write_at owner verdict.state verdict.reason config.cooldown_seconds
            settings',
      )
      else (current, settings')
