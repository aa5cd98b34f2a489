-- ===== src/Coverage/Gate.antt =====
-- computeCoverageProof and coverageRequirementsMet of index.ts of apps/api/src: the coverage of each
-- source of a window, and the requirements of a mode. Doubles are the argument `N`, with `<` and with
-- `Number((covered / total).toFixed(6))`; the rows of each source are arguments.
use arivion.Prelude.{
  ℕ, String, Bool, true, false, not, ◌&&◌, ◌||◌, Option, none, some, List, [], ◌∷◌, ◌++◌, str_eq,
  ltb, if◌then◌else◌, max,
}
use arivion.Coverage.Buckets.{BucketedCoverage, bucketed_coverage}

pub data CoverageMode : Type 0 where
  bar_based l2_sweep_only l2_queue_full : CoverageMode

-- of the mode in lower case
unfoldable pub normalize_coverage_mode : String → CoverageMode
normalize_coverage_mode m =
    if str_eq m "l2_queue" || (str_eq m "l2_queue_full" || str_eq m "queue")
    then l2_queue_full
    else if str_eq m "l2_sweep" || (str_eq m "l2_sweep_only" || str_eq m "sweep")
    then l2_sweep_only
    else bar_based

-- the times of the rows that each query finds for the symbol
pub record Sources : Type 0 where
  pub candles : List ℕ
  pub l2_snapshots : List ℕ
  pub trades : List ℕ
  pub mark_candles : List ℕ
  pub index_candles : List ℕ
  pub funding_rows : ℕ
  -- the margin tiers of the latest instrument snapshot
  pub tiers : Option ℕ

pub record CoverageProof : Type 0 where
  pub candles : BucketedCoverage
  pub l2_snapshots : BucketedCoverage
  pub trades : BucketedCoverage
  pub mark_prices : BucketedCoverage
  pub index_prices : BucketedCoverage
  pub funding_rows : ℕ
  pub has_risk_limit_snapshot : Bool

abbrev has_tiers : Option ℕ → Bool
has_tiers none = false
has_tiers (some tiers) = ltb 0 tiers

unfoldable pub compute_coverage_proof : ℕ → ℕ → ℕ → Sources → CoverageProof
compute_coverage_proof start end interval_ms s =
    let bucket = max 1 interval_ms in
    record {
      candles = bucketed_coverage start end bucket s.candles;
      l2_snapshots = bucketed_coverage start end bucket s.l2_snapshots;
      trades = bucketed_coverage start end bucket s.trades;
      mark_prices = bucketed_coverage start end bucket s.mark_candles;
      index_prices = bucketed_coverage start end bucket s.index_candles;
      funding_rows = s.funding_rows;
      has_risk_limit_snapshot = has_tiers s.tiers;
    }

pub record Thresholds (N : Type 0) : Type 0 where
  pub candles : N
  pub l2 : N
  pub trades : N
  pub mark : N
  pub index : N

pub data Requirement : Type 0 where
  candle_coverage_below_threshold l2_snapshot_coverage_below_threshold : Requirement
  trade_coverage_below_threshold mark_price_coverage_below_threshold : Requirement
  index_price_coverage_below_threshold missing_risk_limit_snapshot missing_funding_rows :
      Requirement

-- `if (unmet) missing.push(r)`
abbrev pub push_if : Bool → Requirement → List Requirement
push_if unmet r = if unmet then r ∷ [] else []

abbrev needs_l2 : CoverageMode → Bool
needs_l2 bar_based = false
needs_l2 l2_sweep_only = true
needs_l2 l2_queue_full = true

abbrev needs_trades : CoverageMode → Bool
needs_trades bar_based = false
needs_trades l2_sweep_only = false
needs_trades l2_queue_full = true

abbrev pub is_empty : List Requirement → Bool
is_empty [] = true
is_empty (r ∷ rs) = false

module _ {N : Type 0} (lt : N → N → Bool) (ratio : ℕ → ℕ → N) where
  abbrev pub below : BucketedCoverage → N → Bool
  below c threshold = lt (ratio c.covered c.total) threshold

  abbrev leveraged_requirements : Thresholds N → CoverageProof → List Requirement
  leveraged_requirements thresholds p =
      push_if (below p.mark_prices thresholds.mark) mark_price_coverage_below_threshold
      ++ (push_if (below p.index_prices thresholds.index) index_price_coverage_below_threshold
          ++ push_if (not p.has_risk_limit_snapshot) missing_risk_limit_snapshot)

  -- `missing`, of a proof that is given
  unfoldable pub coverage_requirements :
      Thresholds N → CoverageProof → CoverageMode → Bool → Bool → List Requirement
  coverage_requirements thresholds p mode leveraged funding =
      push_if (below p.candles thresholds.candles) candle_coverage_below_threshold
      ++ (push_if (needs_l2 mode && below p.l2_snapshots thresholds.l2)
            l2_snapshot_coverage_below_threshold
          ++ (push_if (needs_trades mode && below p.trades thresholds.trades)
                trade_coverage_below_threshold
              ++ ((if leveraged then leveraged_requirements thresholds p else [])
                  ++ push_if (funding && not (ltb 0 p.funding_rows)) missing_funding_rows)))

  -- `ok`, of the mode in lower case
  unfoldable pub coverage_requirements_met :
      Thresholds N → CoverageProof → String → Bool → Bool → Bool
  unfolding coverage_requirements normalize_coverage_mode
  coverage_requirements_met thresholds p mode leveraged funding =
      is_empty (coverage_requirements thresholds p (normalize_coverage_mode mode) leveraged funding)
