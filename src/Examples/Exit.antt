-- ===== src/Examples/Exit.antt =====
-- The theorems of the exit policy, with fixed-point numbers (thousandths) for the doubles.
use arivion.Prelude.{
  ℤ, pos, negsuc, ◌≡◌, refl, true, false, none, some, List, [], ◌∷◌, ◌++◌, arith, get_elem?,
}
use arivion.Examples.Fixed.{thousandths}
use arivion.Exit.Policy.{
  StopLossType, TakeProfitTier, ExitPolicy, PositionView, Side, ExitReason, Action, ExitDecision,
}
use arivion.Exit.Evaluate.{
  evaluate_exit, target_hit, has_cleared, unrealized_return, effective_stop, decide, trail,
  ratchet_cleared, base_stop_price, tighten, take_profit_stage, take_profit_hits, hit_tiers,
  highest, lock_pct, cleared_fraction,
}
use arivion.Exit.Ratchet.{tight, stop_never_loosens}
use arivion.Exit.Tiers.{tier_taken_once, evaluate_exit_total, AllBelow}

abbrev half_at_10 : List (TakeProfitTier ℤ)
half_at_10 =
    record { target_pct = pos 100; reduce_fraction = pos 500 }
    ∷ record { target_pct = pos 300; reduce_fraction = pos 500 }
    ∷ []

-- a 5% stop, two targets, a trailing stop from 5%, an hour at most, 20% lost at most
abbrev pub policy : ExitPolicy ℤ
policy = record {
  stop_loss = record { type = StopLossType.fixed_pct; value = pos 50 };
  take_profit = some half_at_10;
  trailing = some (record { activate_at_pct = pos 50; trail_pct = pos 100; ratchet = true });
  max_hold_seconds = some 3600;
  max_loss_pct = some (pos 200);
}

-- a long position from 100, whose stop stands at 98
abbrev view : PositionView ℤ
view = record {
  side = Side.long;
  entry_price = pos 100_000;
  opened_at_ms = 0;
  policy = policy;
  runtime = record {
    high_water = pos 100_000;
    low_water = pos 100_000;
    cleared_tiers = [];
    current_stop_price = some (pos 98_000);
  };
  atr = none;
}

-- at 120 the first target is reached, and the trailing stop moves to 108
abbrev at_120 : ExitDecision ℤ
at_120 = record {
  action = Action.reduce;
  reason = some ExitReason.take_profit;
  fraction = some (pos 500);
  tier_index = some 0;
  unrealized = pos 200;
  next_runtime = record {
    high_water = pos 120_000;
    low_water = pos 100_000;
    cleared_tiers = 0 ∷ [];
    current_stop_price = some (pos 108_000);
  };
}

-- at 97 the stored stop is hit
abbrev at_97 : ExitDecision ℤ
at_97 = record {
  action = Action.close;
  reason = some ExitReason.trailing_stop;
  fraction = some (pos 1000);
  tier_index = none;
  unrealized = negsuc 29;
  next_runtime = record {
    high_water = pos 100_000;
    low_water = pos 97_000;
    cleared_tiers = [];
    current_stop_price = some (pos 98_000);
  };
}

-- at 100 after an hour and a half
abbrev late : ExitDecision ℤ
late = record {
  action = Action.close;
  reason = some ExitReason.time_exit;
  fraction = some (pos 1000);
  tier_index = none;
  unrealized = pos 0;
  next_runtime = view.runtime;
}

decisions :
    (evaluate_exit thousandths view (pos 120_000) 1000 ≡ some at_120)
    × (evaluate_exit thousandths view (pos 97_000) 1000 ≡ some at_97)
    × (evaluate_exit thousandths view (pos 100_000) 5_400_000 ≡ some late)
unfolding evaluate_exit effective_stop decide trail ratchet_cleared unrealized_return
    base_stop_price tighten take_profit_stage take_profit_hits hit_tiers highest lock_pct
    cleared_fraction
decisions = (refl, refl, refl)

stop_never_loosens_example :
    (s : ℤ) × (at_120.next_runtime.current_stop_price ≡ some s)
    × (tight thousandths Side.long (pos 98_000) s ≡ true)
stop_never_loosens_example =
    stop_never_loosens thousandths view (pos 120_000) 1000 at_120 refl decisions.0

tier_taken_once_example :
    (ladder : List (TakeProfitTier ℤ)) × (t : TakeProfitTier ℤ) × (view.policy.take_profit
      ≡ some ladder)
    × (get_elem? ladder 0 ≡ some t)
    × (target_hit thousandths Side.long (pos 100_000) t.target_pct (pos 120_000) ≡ true)
    × (has_cleared [] 0 ≡ false)
    × (at_120.next_runtime.cleared_tiers ≡ [] ++ 0 ∷ [])
tier_taken_once_example =
    tier_taken_once thousandths view (pos 120_000) 1000 at_120 0 decisions.0 refl

-- the position after its first target
abbrev reduced : PositionView ℤ
reduced = record view { runtime = at_120.next_runtime }

evaluate_exit_total_example :
    (d : ExitDecision ℤ) × (evaluate_exit thousandths reduced (pos 140_000) 2000 ≡ some d)
    × AllBelow 2 d.next_runtime.cleared_tiers
evaluate_exit_total_example =
    evaluate_exit_total thousandths reduced (pos 140_000) 2000 (omega arith, tt)
