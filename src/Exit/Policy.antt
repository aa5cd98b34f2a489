-- ===== src/Exit/Policy.antt =====
-- positions/exitPolicy.ts: the policy, the state that it advances, and `validateExitPolicy`.
-- `N` is the type of numbers; times are whole milliseconds.
use arivion.Prelude.{
  ℕ, Bool, true, false, not, ltb, ◌&&◌, Option, none, some, List, [], ◌∷◌, if◌then◌else◌,
}
use arivion.Exit.Real
use arivion.Exit.Real.{Real}

pub data StopLossType : Type 0 where
  fixed_pct atr_mult : StopLossType

pub record StopLoss (N : Type 0) : Type 0 where
  pub type : StopLossType
  pub value : N

pub record TakeProfitTier (N : Type 0) : Type 0 where
  pub target_pct : N
  pub reduce_fraction : N

pub record Trailing (N : Type 0) : Type 0 where
  pub activate_at_pct : N
  pub trail_pct : N
  pub ratchet : Bool

pub record ExitPolicy (N : Type 0) : Type 0 where
  pub stop_loss : StopLoss N
  pub take_profit : Option (List (TakeProfitTier N))
  pub trailing : Option (Trailing N)
  -- `time_exit.max_hold_seconds`
  pub max_hold_seconds : Option ℕ
  pub max_loss_pct : Option N

pub record PositionRuntime (N : Type 0) : Type 0 where
  pub high_water : N
  pub low_water : N
  pub cleared_tiers : List ℕ
  pub current_stop_price : Option N

pub data Side : Type 0 where
  long short : Side

pub record PositionView (N : Type 0) : Type 0 where
  pub side : Side
  pub entry_price : N
  pub opened_at_ms : ℕ
  pub policy : ExitPolicy N
  pub runtime : PositionRuntime N
  pub atr : Option N

pub data ExitReason : Type 0 where
  stop_loss trailing_stop take_profit take_profit_final time_exit max_loss : ExitReason

pub data Action : Type 0 where
  hold reduce close : Action

pub record ExitDecision (N : Type 0) : Type 0 where
  pub action : Action
  pub reason : Option ExitReason
  pub fraction : Option N
  pub tier_index : Option ℕ
  pub unrealized : N
  pub next_runtime : PositionRuntime N

pub data PolicyFault : Type 0 where
  schema not_ascending over_allocated stop_too_wide : PolicyFault

module _ (R : Real) where
  open R use {Num, zero, one, over_one, add, le}

  -- `z.number().positive()`
  abbrev is_positive : Num → Bool
  is_positive x = Real.lt R zero x

  abbrev is_valid_tier : TakeProfitTier Num → Bool
  is_valid_tier t =
      is_positive t.target_pct && is_positive t.reduce_fraction && le t.reduce_fraction one

  abbrev all_tiers : List (TakeProfitTier Num) → Bool
  all_tiers [] = true
  all_tiers (t ∷ ts) = is_valid_tier t && all_tiers ts

  abbrev is_valid_ladder : List (TakeProfitTier Num) → Bool
  is_valid_ladder [] = false
  is_valid_ladder (t ∷ ts) = all_tiers (t ∷ ts)

  abbrev opt_all : {A : Type 0} → (A → Bool) → Option A → Bool
  opt_all p none = true
  opt_all p (some x) = p x

  -- `ExitPolicySchema.safeParse(input).success`, for input of the right shape
  unfoldable fits_schema : ExitPolicy Num → Bool
  fits_schema p =
      is_positive p.stop_loss.value
      && opt_all is_valid_ladder p.take_profit
      && opt_all (λ t. le zero t.activate_at_pct && is_positive t.trail_pct) p.trailing
      && opt_all (λ s. ltb 0 s) p.max_hold_seconds
      && opt_all is_positive p.max_loss_pct

  -- the loop over neighbours, from the tier before
  unfoldable ascends_from : TakeProfitTier Num → List (TakeProfitTier Num) → Bool
  ascends_from t [] = true
  ascends_from t (u ∷ us) = if le u.target_pct t.target_pct then false else ascends_from u us

  unfoldable ascends : List (TakeProfitTier Num) → Bool
  unfolding ascends_from
  ascends [] = true
  ascends (t ∷ ts) = ascends_from t ts

  -- `reduce((s, x) => s + x.reduce_fraction, s)`
  unfoldable total_fraction : Num → List (TakeProfitTier Num) → Num
  total_fraction s [] = s
  total_fraction s (t ∷ ts) = total_fraction (add s t.reduce_fraction) ts

  unfoldable ladder_fault : Option (List (TakeProfitTier Num)) → Option PolicyFault
  unfolding ascends total_fraction
  ladder_fault none = none
  ladder_fault (some ladder) =
      if not (ascends ladder)
      then some not_ascending
      else if Real.lt R over_one (total_fraction zero ladder)
      then some over_allocated
      else none

  abbrev is_fixed : StopLossType → Bool
  is_fixed fixed_pct = true
  is_fixed atr_mult = false

  abbrev or_fault : Option PolicyFault → Option PolicyFault → Option PolicyFault
  or_fault none other = other
  or_fault (some f) other = some f

  -- `validateExitPolicy`: `none` is `{ ok: true }`.
  unfoldable pub validate_exit_policy : ExitPolicy Num → Option PolicyFault
  unfolding fits_schema ladder_fault
  validate_exit_policy p =
      if not (fits_schema p)
      then some schema
      else or_fault (ladder_fault p.take_profit) (
          if is_fixed p.stop_loss.type && le one p.stop_loss.value
          then some stop_too_wide
          else none)
