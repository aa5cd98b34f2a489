-- ===== src/Trigger/Conditions.antt =====
-- triggers/evaluator.ts: `evaluateConditions`. The texts and signals of a candidate are left out, and
-- a confidence is counted in hundredths.
use arivion.Prelude.{
  ℕ, String, Bool, true, false, not, ◌&&◌, Option, none, some, List, [], ◌∷◌, str_eq, if◌then◌else◌,
}
use arivion.Exit.Real
use arivion.Exit.Real.{Real}

pub record MarketEvent (N : Type 0) : Type 0 where
  pub symbol : String
  pub category : Option String
  pub volume : Option N
  pub median_volume : Option N
  pub vol_pct : Option N
  pub median_vol_pct : Option N
  pub regime : Option String
  pub prev_regime : Option String
  pub funding_rate : Option N
  pub drawdown : Option N
  pub age_ms : Option N
  pub bar_ts : Option ℕ
  pub lp_in_range : Option Bool
  pub lp_fee_apr_pct : Option N
  pub lp_entry_fee_apr_pct : Option N
  pub lp_il_pct : Option N
  pub lp_il_budget_pct : Option N
  pub funding_sign : Option N
  pub prev_funding_sign : Option N

-- the thresholds that are used where none is configured: 2.0, 0.0008, 3.0, 0.15, 600000, 0.5 and 1.0
pub record Defaults (N : Type 0) : Type 0 where
  pub volatility_spike : N
  pub funding_extreme : N
  pub volume_spike : N
  pub drawdown : N
  pub coverage : N
  pub fee_apr_decay : N
  pub il_breach : N

pub record Candidate : Type 0 where
  pub trigger_type : String
  pub playbook : String
  pub confidence : ℕ

abbrev raised : String → String → ℕ → Candidate
raised type playbook confidence = record {
  trigger_type = type;
  playbook = playbook;
  confidence = confidence;
}

-- the candidates whose test holds, in order
unfoldable pub raise : List (Bool × Candidate) → List Candidate
raise [] = []
raise ((test, c) ∷ rules) = if test then c ∷ raise rules else raise rules

-- a text that is there and not empty
abbrev is_text : String → Bool
is_text s = not (str_eq s "")

abbrev flipped : Option String → Option String → Bool
flipped (some now) (some before) = is_text now && is_text before && not (str_eq now before)
flipped (some now) none = false
flipped none before = false

abbrev is_false : Option Bool → Bool
is_false (some false) = true
is_false (some true) = false
is_false none = false

module _ (R : Real) where
  open R use {Num, mul, negate, le}
  open R use {zero as nought}

  abbrev or_default : Option Num → Num → Num
  or_default none d = d
  or_default (some x) d = x

  -- `x > t`, of a value that may be missing
  abbrev exceeds : Option Num → Num → Bool
  exceeds none t = false
  exceeds (some x) t = Real.lt R t x

  -- `x > m * median`, for a median above 0
  abbrev spikes : Option Num → Option Num → Num → Bool
  spikes (some x) (some median) m = Real.lt R nought median && Real.lt R (mul m median) x
  spikes (some x) none m = false
  spikes none median m = false

  abbrev abs : Num → Num
  abs x = if Real.lt R x nought then negate x else x

  abbrev is_extreme : Option Num → Num → Bool
  is_extreme none t = false
  is_extreme (some x) t = Real.lt R t (abs x)

  -- `x < m * entry`, for an entry above 0
  abbrev decays : Option Num → Option Num → Num → Bool
  decays (some x) (some entry) m = Real.lt R nought entry && Real.lt R x (mul m entry)
  decays (some x) none m = false
  decays none entry m = false

  abbrev breaches : Option Num → Option Num → Num → Bool
  breaches (some x) (some budget) m = Real.lt R (mul m budget) x
  breaches (some x) none m = false
  breaches none budget m = false

  abbrev same : Num → Num → Bool
  same a b = le a b && le b a

  abbrev sign_flips : Option Num → Option Num → Bool
  sign_flips (some now) (some before) = not (same now before) && not (same now nought)
  sign_flips (some now) none = false
  sign_flips none before = false

  -- the ten conditions, each with what it raises
  unfoldable pub rules :
      Defaults Num → MarketEvent Num → (String → Option Num) → List (Bool × Candidate)
  rules d ev threshold =
      (
        spikes ev.vol_pct ev.median_vol_pct
            (or_default (threshold "volatility_spike") d.volatility_spike),
        raised "volatility_spike" "volatility_spike_review" 90,
      )
      ∷ (flipped ev.regime ev.prev_regime, raised "regime_flip" "regime_flip_review" 100)
      ∷ (
        is_extreme ev.funding_rate (or_default (threshold "funding_extreme") d.funding_extreme),
        raised "funding_extreme" "funding_extreme_scan" 100,
      )
      ∷ (
        spikes ev.volume ev.median_volume (or_default (threshold "volume_spike") d.volume_spike),
        raised "volume_spike" "volatility_spike_review" 80,
      )
      ∷ (
        exceeds ev.drawdown (or_default (threshold "drawdown") d.drawdown),
        raised "drawdown" "inspect_drawdown" 100,
      )
      ∷ (
        exceeds ev.age_ms (or_default (threshold "coverage") d.coverage),
        raised "coverage" "coverage_repair" 100,
      )
      ∷ (is_false ev.lp_in_range, raised "lp_out_of_range" "lp_recenter_review" 100)
      ∷ (
        decays ev.lp_fee_apr_pct ev.lp_entry_fee_apr_pct
            (or_default (threshold "fee_apr_decay") d.fee_apr_decay),
        raised "fee_apr_decay" "lp_recompare_review" 90,
      )
      ∷ (
        breaches ev.lp_il_pct ev.lp_il_budget_pct (or_default (threshold "il_breach") d.il_breach),
        raised "il_breach" "lp_rehedge_review" 95,
      )
      ∷ (
        sign_flips ev.funding_sign ev.prev_funding_sign,
        raised "funding_flip" "carry_flip_review" 85,
      )
      ∷ []

  -- `evaluateConditions`; `threshold` is what is configured for a type
  unfoldable pub evaluate_conditions :
      Defaults Num → MarketEvent Num → (String → Option Num) → List Candidate
  unfolding raise rules
  evaluate_conditions d ev threshold = raise (rules d ev threshold)
