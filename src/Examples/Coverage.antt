-- ===== src/Examples/Coverage.antt =====
-- The theorems of Coverage, Grid and Bus, applied to small inputs.
use arivion.Prelude.{
  ℕ, ◌+◌, ◌*◌, ◌≤◌, ◌<◌, ◌≢◌, String, eq_iff, ◌≡◌, refl, true, false, not, none, some, List, [],
  ◌∷◌, any, take, length, max, ◌/◌, ltb, leb, arith,
}
use arivion.Coverage.Interval.{interval_to_ms, align_ts}
use arivion.Coverage.Scan.{GapScanInput, Candle, count_expected, scan_coverage}
use arivion.Coverage.Ranges.{bars}
use arivion.Coverage.Counts.{AreIn}
use arivion.Coverage.RoundTrip.{
  Covers, window_of, times_of, missing_ranges_expand, IsBalanced, scan_counts,
}
use arivion.Coverage.Buckets.{bucketed_coverage, total_buckets}
use arivion.Coverage.Windows.{is_reported, falls_in, bucketed_coverage_reported}
use arivion.Coverage.Gate.{
  l2_queue_full, normalize_coverage_mode, Sources, Thresholds, coverage_requirements_met,
  compute_coverage_proof,
}
use arivion.Coverage.Full.{met_window_has_rows}
use arivion.Grid.{SearchRange, Doubles, axes_of, generate_grid_candidates}
use arivion.Grid.Enumerate.{combinations, candidates_enumerate}
use arivion.Bus.{
  run_started, message, run_done, BusAction, do_publish, do_subscribe, do_unsubscribe, do_expire,
  act_all, empty_bus, replay,
}
use arivion.Bus.Numbers.{AreNumbered}
use arivion.Bus.Delivery.{subscriber_in_order}

-- five bars of a minute, of which the third is missing
abbrev input : GapScanInput
input = record {
  symbol = "BTCUSDT";
  category = "linear";
  interval = "1";
  start_ts = 60500;
  end_ts = 300000;
}

abbrev bar : ℕ → Candle
bar ts = record { symbol = "BTCUSDT"; category = "linear"; interval = "1"; open_time = ts }

abbrev candles : List Candle
candles = bar 60000 ∷ bar 120000 ∷ bar 240000 ∷ bar 240000 ∷ bar 300000 ∷ []

a_minute : interval_to_ms "1" ≡ some 60000
unfolding interval_to_ms
a_minute = refl

missing_ranges_expand_example :
    Covers 60000
      (window_of input 60000)
      (times_of input candles 60000)
      (scan_coverage input candles)
missing_ranges_expand_example = missing_ranges_expand input candles 60000 a_minute

on_grid : AreIn (window_of input 60000) (times_of input candles 60000)
unfolding align_ts count_expected bars
on_grid = (refl, (refl, (refl, (refl, (refl, tt)))))

scan_counts_example :
    IsBalanced 60000
      (length (window_of input 60000))
      (times_of input candles 60000)
      (scan_coverage input candles)
scan_counts_example = scan_counts input candles 60000 a_minute on_grid

three_buckets : 1 < total_buckets 1000 4000 (max 1 1000)
unfolding total_buckets
three_buckets = omega arith

bucketed_coverage_reported_example :
    is_reported
      (bucketed_coverage 1000 4000 1000 (1200 ∷ 3700 ∷ [])).missing_ranges
      (1000 + 1 * max 1 1000 + 250)
    ≡ not (any (falls_in 1000 (max 1 1000) 1) (1200 ∷ 3700 ∷ []))
bucketed_coverage_reported_example =
    bucketed_coverage_reported 1000 4000 1000 1 250 (1200 ∷ 3700 ∷ []) three_buckets (omega arith)

two_buckets : 1 < total_buckets 0 2000 (max 1 1000)
unfolding total_buckets
two_buckets = omega arith

queue_mode : normalize_coverage_mode "l2_queue" ≡ l2_queue_full
unfolding normalize_coverage_mode
queue_mode = refl

-- the ratio in millionths, rounded to the nearest
abbrev millionths : ℕ → ℕ → ℕ
millionths covered total = (2 * covered * 1000000 + total) / max 1 (2 * total)

-- the thresholds of the source where none is configured, 0.98
abbrev default_thresholds : Thresholds ℕ
default_thresholds = record {
  candles = 980000;
  l2 = 980000;
  trades = 980000;
  mark = 980000;
  index = 980000;
}

abbrev sources : Sources
sources = record {
  candles = 10 ∷ 1010 ∷ [];
  l2_snapshots = 20 ∷ 30 ∷ 1990 ∷ [];
  trades = 1500 ∷ 5 ∷ [];
  mark_candles = [];
  index_candles = [];
  funding_rows = 0;
  tiers = none;
}

-- of two buckets, one is not enough
both_needed :
    (covered : ℕ)
    → ltb (millionths covered (total_buckets 0 2000 (max 1 1000))) 980000 ≡ false
    → total_buckets 0 2000 (max 1 1000) ≤ covered
unfolding total_buckets
both_needed covered h = ground arith

queue_met :
    coverage_requirements_met ltb millionths default_thresholds
      (compute_coverage_proof 0 2000 1000 sources)
      "l2_queue"
      false
      false
    ≡ true
unfolding coverage_requirements_met compute_coverage_proof bucketed_coverage
queue_met = refl

met_window_has_rows_example :
    (any (falls_in 0 (max 1 1000) 1) sources.candles ≡ true)
    × (any (falls_in 0 (max 1 1000) 1) sources.l2_snapshots ≡ true)
    × (any (falls_in 0 (max 1 1000) 1) sources.trades ≡ true)
met_window_has_rows_example =
    met_window_has_rows ltb millionths default_thresholds "l2_queue" false false 0 2000 1000 1
      sources queue_mode both_needed both_needed both_needed queue_met two_buckets

abbrev exact : Doubles ℕ
exact = record { plus = λ a b. a + b; within = leb; round = λ v. v }

abbrev widths : String × SearchRange ℕ
widths = ("width", record { min = 1; max = 3; step = 1 })

abbrev levels : String × SearchRange ℕ
levels = ("levels", record { min = 10; max = 25; step = 10 })

candidates_enumerate_example :
    generate_grid_candidates exact (levels ∷ widths ∷ []) 4
    ≡ take 4 (combinations (axes_of exact (levels ∷ widths ∷ [])))
candidates_enumerate_example =
    candidates_enumerate exact (levels ∷ widths ∷ []) 4 (omega arith) (refl, (refl, tt))

abbrev earlier : List BusAction
earlier =
    do_publish "r1" run_started true
    ∷ do_subscribe "r1" 7
    ∷ do_publish "r2" run_started true
    ∷ do_publish "r1" message true
    ∷ []

abbrev later : List BusAction
later =
    do_publish "r1" message false
    ∷ do_unsubscribe "r1" 7
    ∷ do_expire "r2"
    ∷ do_publish "r1" run_done true
    ∷ []

r2_apart : (◌≢◌ {A = String} "r2" "r1")
r2_apart e = cc ((eq_iff "r2" "r1").1 e)

subscriber_in_order_example :
    let s = act_all later (act_all (do_subscribe "r1" 8 ∷ []) (act_all earlier empty_bus)) in
    (s.received 8 ≡ replay "r1" s) × AreNumbered "r1" 0 (s.received 8)
subscriber_in_order_example =
    subscriber_in_order "r1" 8 earlier later (tt, (omega arith, (tt, (tt, tt))))
      (tt, (omega arith, (r2_apart, (tt, tt))))
