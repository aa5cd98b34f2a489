-- ===== src/Examples/Risk.antt =====
-- The theorems of the risk state, at an owner who lost three times in a row.
use arivion.Prelude.{
  ◌*◌, ◌/◌, ◌≡◌, max, ℤ, pos, negsuc, none, some, List, [], ◌∷◌, ◌==◌, arith, if◌then◌else◌,
}
use arivion.Examples.Fixed.{thousandths}
use arivion.Risk.Breakers.{rank, RiskConfig, BreakerInputs}
use arivion.Risk.Status.{Settings, calm, get_risk_state, verdict_of, refresh_risk_state}
use arivion.Risk.Escalation.{stored_state, refresh_escalates}

abbrev config : RiskConfig ℤ
config = record {
  halt_drawdown_pct = pos 250;
  halt_consecutive_losses = 5;
  averse_cvar_pct = pos 100;
  averse_consecutive_losses = 3;
  cooldown_seconds = 3600;
  tail_of = λ n. n / 10;
  of_count = λ k. pos (k * 1000);
}

-- three losses of 2% after a gain of 5%, newest first
abbrev three_losses : List ℤ
three_losses = negsuc 19 ∷ negsuc 19 ∷ negsuc 19 ∷ pos 50 ∷ []

abbrev settings : Settings
settings = λ o. if o == 1 then some calm else none

abbrev two : BreakerInputs ℤ
two = record { consecutive_losses = 2; recent_returns = three_losses; worst_drawdown = pos 20 }

abbrev six : BreakerInputs ℤ
six = record two { consecutive_losses = 6 }

refresh_escalates_example :
    let (status, settings') =
      refresh_risk_state thousandths config three_losses 10 11 12 1 settings in
    (rank status.state
      ≡ max
          (rank (get_risk_state 10 1 settings).0.state)
          (rank (verdict_of thousandths config three_losses).state))
    × (stored_state (settings' 1) ≡ status.state)
    × (settings' 2 ≡ settings 2)
refresh_escalates_example =
    refresh_escalates thousandths config three_losses 10 11 12 1 settings 2 (omega arith)
