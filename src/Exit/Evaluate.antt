-- ===== src/Exit/Evaluate.antt =====
-- positions/exitPolicy.ts: `evaluateExit`, in the stages of the source. The result is `none` where a
-- cleared tier is no index of the ladder: there `sorted[maxCleared - 1].target_pct` throws.
use arivion.Prelude.{
  ℕ, zero, suc, ◌+◌, ◌*◌, Bool, false, not, ◌&&◌, ◌||◌, Option, none, some, List, [], ◌∷◌, ◌++◌,
  length, get_elem?, any, ◌==◌, leb, if◌then◌else◌,
}
use mathlib.Core.Option
use arivion.Exit.Real
use arivion.Exit.Real.{Real}
use arivion.Exit.Policy.{
  StopLossType, fixed_pct, atr_mult, StopLoss, TakeProfitTier, Trailing, ExitPolicy,
  PositionRuntime, Side, long, short, PositionView, ExitReason, Action, ExitDecision,
}

-- `cleared.includes(i)`
abbrev pub has_cleared : List ℕ → ℕ → Bool
has_cleared cleared i = any (λ j. j == i) cleared

-- `Math.max(...cleared)` of a list that is not empty
abbrev pub max_cleared : ℕ → List ℕ → ℕ
max_cleared m [] = m
max_cleared m (i ∷ is) = max_cleared (if leb m i then i else m) is

module _ (R : Real) where
  open R use {Num, one, nearly_one, add, sub, mul, div, negate, le}
  open R use {zero as nought}

  unfoldable pub unrealized_return : Side → Num → Num → Num
  unrealized_return side entry mark =
      if le entry nought
      then nought
      else let raw = div (sub mark entry) entry in elim side [ long ↦ raw | short ↦ negate raw ]

  abbrev or_nought : Option Num → Num
  or_nought none = nought
  or_nought (some x) = x

  -- `side === "long" ? entry - dist : entry + dist`, and the like for a fraction of the entry
  abbrev below : Side → Num → Num → Num
  below long entry dist = sub entry dist
  below short entry dist = add entry dist

  abbrev below_pct : Side → Num → Num → Num
  below_pct long price pct = mul price (sub one pct)
  below_pct short price pct = mul price (add one pct)

  abbrev above_pct : Side → Num → Num → Num
  above_pct long price pct = mul price (add one pct)
  above_pct short price pct = mul price (sub one pct)

  abbrev stop_by_type : StopLossType → Side → Num → Num → Option Num → Num
  stop_by_type atr_mult side entry value atr = below side entry (mul (or_nought atr) value)
  stop_by_type fixed_pct side entry value atr = below_pct side entry value

  unfoldable pub base_stop_price : Side → Num → StopLoss Num → Option Num → Num
  base_stop_price side entry sl atr = stop_by_type sl.type side entry sl.value atr

  abbrev pub stop_hit : Side → Num → Num → Bool
  stop_hit long mark stop = le mark stop
  stop_hit short mark stop = le stop mark

  abbrev pub target_hit : Side → Num → Num → Num → Bool
  target_hit long entry target mark = le (above_pct long entry target) mark
  target_hit short entry target mark = le mark (above_pct short entry target)

  unfoldable pub tighten : Side → Num → Num → Num
  tighten long current candidate = Real.max R current candidate
  tighten short current candidate = Real.min R current candidate

  abbrev pub tighter : Side → Num → Num → Bool
  tighter long a b = Real.lt R b a
  tighter short a b = Real.lt R a b

  -- `initRuntime`
  unfoldable pub init_runtime : Side → Num → ExitPolicy Num → Option Num → PositionRuntime Num
  unfolding base_stop_price
  init_runtime side entry policy atr = record {
    high_water = entry;
    low_water = entry;
    cleared_tiers = [];
    current_stop_price = some (base_stop_price side entry policy.stop_loss atr);
  }

  abbrev advance_high : Side → Num → Num → Num
  advance_high long high mark = Real.max R high mark
  advance_high short high mark = Real.min R high mark

  abbrev advance_low : Side → Num → Num → Num
  advance_low long low mark = Real.min R low mark
  advance_low short low mark = Real.max R low mark

  -- `runtime.current_stop_price ?? baseStopPrice(…)`
  abbrev pub stop_before : PositionView Num → Num
  stop_before view = elim view.runtime.current_stop_price [
    | none ↦ base_stop_price view.side view.entry_price view.policy.stop_loss view.atr
    | some stop ↦ stop
  ]

  -- What a cleared tier locks in: breakeven for the first, the tier before for any other.
  unfoldable pub lock_pct : List (TakeProfitTier Num) → ℕ → Option Num
  lock_pct ladder zero = some nought
  lock_pct ladder (suc i) = Option.map (λ t. t.target_pct) (get_elem? ladder i)

  abbrev lock : Side → Num → Num → Num → Num
  lock side entry stop pct = tighten side stop (above_pct side entry pct)

  -- the ratchet from the tiers that were cleared before
  unfoldable pub ratchet_cleared :
      Side → Num → Option (List (TakeProfitTier Num)) → List ℕ → Num → Option Num
  unfolding lock_pct
  ratchet_cleared side entry none cleared stop = some stop
  ratchet_cleared side entry (some ladder) [] stop = some stop
  ratchet_cleared side entry (some ladder) (i ∷ is) stop =
      Option.map (lock side entry stop) (lock_pct ladder (max_cleared i is))

  -- the trailing stop
  unfoldable pub trail : Side → Num → Option (Trailing Num) → Num → Num → Num
  unfolding unrealized_return
  trail side entry none high stop = stop
  trail side entry (some t) high stop =
      if le t.activate_at_pct (unrealized_return side entry high)
      then (if t.ratchet
          then tighten side stop (below_pct side high t.trail_pct)
          else below_pct side high t.trail_pct)
      else stop

  -- `max_loss_pct != null && unrealized <= -max_loss_pct`
  abbrev pub loses_too_much : Option Num → Num → Bool
  loses_too_much none unrealized = false
  loses_too_much (some cap) unrealized = le unrealized (negate cap)

  -- `nowMs - opened_at_ms >= max_hold_seconds * 1000`
  abbrev pub held_too_long : Option ℕ → ℕ → ℕ → Bool
  held_too_long none opened now = false
  held_too_long (some seconds) opened now = leb (opened + seconds * 1000) now

  -- the tiers of the ladder, from index `i`, that are not cleared and whose target is reached
  unfoldable pub hit_tiers :
      Side → Num → Num → List ℕ → ℕ → List (TakeProfitTier Num) → List (ℕ × TakeProfitTier Num)
  hit_tiers side entry mark cleared i [] = []
  hit_tiers side entry mark cleared i (t ∷ ts) =
      let rest = hit_tiers side entry mark cleared (suc i) ts in
      if not (has_cleared cleared i) && target_hit side entry t.target_pct mark
      then (i, t) ∷ rest
      else rest

  -- the first of the stable sort by falling target: the highest, and of equal ones the first
  unfoldable pub highest :
      ℕ × TakeProfitTier Num → List (ℕ × TakeProfitTier Num) → ℕ × TakeProfitTier Num
  highest best [] = best
  highest best (x ∷ xs) = highest (if le x.1.target_pct best.1.target_pct then best else x) xs

  -- the sum of `reduce_fraction` over the tiers that are cleared, from `s` and index `i`
  unfoldable pub cleared_fraction : List ℕ → ℕ → Num → List (TakeProfitTier Num) → Num
  cleared_fraction cleared i s [] = s
  cleared_fraction cleared i s (t ∷ ts) =
      cleared_fraction cleared (suc i)
        (if has_cleared cleared i then add s t.reduce_fraction else s) ts

  abbrev close_with : ExitReason → Num → PositionRuntime Num → ExitDecision Num
  close_with reason unrealized rt = record {
    action = Action.close;
    reason = some reason;
    fraction = some one;
    tier_index = none;
    unrealized = unrealized;
    next_runtime = rt;
  }

  abbrev keep_holding : Num → PositionRuntime Num → ExitDecision Num
  keep_holding unrealized rt = record {
    action = Action.hold;
    reason = none;
    fraction = none;
    tier_index = none;
    unrealized = unrealized;
    next_runtime = rt;
  }

  -- the runtime after tier `i` is taken, with what it locks in
  abbrev clear_tier : Side → Num → ℕ → PositionRuntime Num → Num → Num → PositionRuntime Num
  clear_tier side entry i rt stop pct = record rt {
    cleared_tiers = rt.cleared_tiers ++ i ∷ [];
    current_stop_price = some (lock side entry stop pct);
  }

  abbrev take_tier :
      List (TakeProfitTier Num)
      → ℕ × TakeProfitTier Num
      → Num
      → PositionRuntime Num
      → ExitDecision Num
  take_tier ladder (i, tier) unrealized rt =
      let cumulative = cleared_fraction rt.cleared_tiers 0 nought ladder in
      let is_final = suc i == length ladder || le nearly_one cumulative in
      record {
        action = if is_final then Action.close else Action.reduce;
        reason = some (if is_final then ExitReason.take_profit_final else ExitReason.take_profit);
        fraction = some (if is_final then one else tier.reduce_fraction);
        tier_index = some i;
        unrealized = unrealized;
        next_runtime = rt;
      }

  -- the take-profit stage, for the tiers that were found
  unfoldable pub take_profit_hits :
      PositionView Num
      → List (TakeProfitTier Num)
      → List (ℕ × TakeProfitTier Num)
      → Num
      → Num
      → PositionRuntime Num
      → Option (ExitDecision Num)
  unfolding highest lock_pct cleared_fraction
  take_profit_hits view ladder [] stop unrealized rt = some (keep_holding unrealized rt)
  take_profit_hits view ladder (x ∷ xs) stop unrealized rt =
      let tier = highest x xs in
      Option.map
        (λ pct.
          take_tier ladder tier unrealized
            (clear_tier view.side view.entry_price tier.0 rt stop pct))
        (lock_pct ladder tier.0)

  unfoldable pub take_profit_stage :
      PositionView Num
      → Option (List (TakeProfitTier Num))
      → Num
      → Num
      → Num
      → PositionRuntime Num
      → Option (ExitDecision Num)
  unfolding take_profit_hits hit_tiers
  take_profit_stage view none mark stop unrealized rt = some (keep_holding unrealized rt)
  take_profit_stage view (some ladder) mark stop unrealized rt =
      take_profit_hits view ladder
        (hit_tiers view.side view.entry_price mark rt.cleared_tiers 0 ladder) stop unrealized rt

  -- the stages in order of precedence, for the stop that is in force
  unfoldable pub decide :
      PositionView Num → Num → ℕ → Num → PositionRuntime Num → Option (ExitDecision Num)
  unfolding take_profit_stage unrealized_return base_stop_price
  decide view mark now stop rt =
      let base = base_stop_price view.side view.entry_price view.policy.stop_loss view.atr in
      let unrealized = unrealized_return view.side view.entry_price mark in
      if stop_hit view.side mark stop
      then some (
          close_with
            (if tighter view.side stop base then ExitReason.trailing_stop else ExitReason.stop_loss)
            unrealized rt)
      else if loses_too_much view.policy.max_loss_pct unrealized
      then some (close_with ExitReason.max_loss unrealized rt)
      else if held_too_long view.policy.max_hold_seconds view.opened_at_ms now
      then some (close_with ExitReason.time_exit unrealized rt)
      else take_profit_stage view view.policy.take_profit mark stop unrealized rt

  -- the stop in force at this mark: the stored one, ratcheted and trailed
  unfoldable pub effective_stop : PositionView Num → Num → Option Num
  unfolding ratchet_cleared trail
  effective_stop view mark =
      Option.map
        (trail view.side view.entry_price view.policy.trailing
          (advance_high view.side view.runtime.high_water mark))
        (ratchet_cleared view.side view.entry_price view.policy.take_profit
          view.runtime.cleared_tiers (stop_before view))

  -- the runtime with its extremes moved to the mark
  abbrev pub advance : PositionView Num → Num → Num → PositionRuntime Num
  advance view mark stop = record {
    high_water = advance_high view.side view.runtime.high_water mark;
    low_water = advance_low view.side view.runtime.low_water mark;
    cleared_tiers = view.runtime.cleared_tiers;
    current_stop_price = some stop;
  }

  unfoldable pub evaluate_exit : PositionView Num → Num → ℕ → Option (ExitDecision Num)
  unfolding decide effective_stop
  evaluate_exit view mark now = elim (effective_stop view mark) [
    | none ↦ none
    | some stop ↦ decide view mark now stop (advance view mark stop)
  ]
