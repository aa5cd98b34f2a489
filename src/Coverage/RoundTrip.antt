-- ===== src/Coverage/RoundTrip.antt =====
-- What scanCoverage (lib/gapScanner.ts) reports, from the loops of Coverage.Ranges.
use arivion.Prelude.{
  same_number, ℕ, suc, ◌+◌, ◌*◌, ◌/◌, ◌<◌, String, ◌≡◌, refl, ap, ◌∙◌, Bool, true, false, not, ◌||◌,
  Option, none, some, List, [], ◌∷◌, select, map, All, count, length, ◌==◌, str_eq, Bool-cases,
  Option-cases, Always, if-case, eq_of_some-eq, inl, inr, arith,
}
use mathlib.Core.Path.{fun_ext, subst}
use arivion.Coverage.Interval.{interval_minutes, minutes_in, in_ms, interval_to_ms, align_ts}
use arivion.Coverage.Scan.{
  GapScanInput, Candle, GapScanResult, RangeState, has, distinct, scan_loop, no_ranges, result_of,
  count_expected, is_selected, scan_times, scan_coverage,
}
use arivion.Coverage.Counts.{
  AreIn, distinct-IsDistinct, distinct-AreIn, length-distinct, count-has, count-select, length-bars,
  bars-IsDistinct,
}
use arivion.Coverage.Ranges.{
  bars, expand_all, is_missing, Scanned, scan_loop-Scanned, close-so_far, Left-count,
}

-- A scan that returns, and whose missing ranges are the missing times of the window.
abbrev pub Covers : ℕ → List ℕ → List ℕ → Option GapScanResult → Type 0
Covers step window times none = ⊥
Covers step window times (some result) =
    expand_all step result.missing_ranges ≡ select (is_missing times) window

absorbed :
    (seen : List ℕ) (t ts : ℕ) (b : Bool)
    → has seen t ≡ true
    → (has seen ts || b) ≡ (has seen ts || (t == ts || b))
absorbed seen t ts b old = elim (Bool-cases (t == ts)) [
  | inl same ↦
      let found : has seen ts ≡ true = subst (λ u. has seen u ≡ true) (same_number t ts same) old in
      rw found
  | inr other ↦ rw other
]

or_swap : (a b c : Bool) → ((a || b) || c) ≡ (b || (a || c))
or_swap true true c = refl
or_swap true false c = refl
or_swap false true c = refl
or_swap false false c = refl

pub has-distinct :
    (times seen : List ℕ) (d ts : ℕ)
    → has (distinct times seen d).0 ts ≡ (has seen ts || has times ts)
unfolding distinct
has-distinct [] seen d ts = ground arith
has-distinct (t ∷ times) seen d ts = elim (Bool-cases (has seen t)) [
  | inl old ↦
      rw (old, distinct)
        (has-distinct times seen (suc d) ts ∙ absorbed seen t ts (has times ts) old)
  | inr new ↦
      rw (new, distinct)
        (has-distinct times (t ∷ seen) d ts ∙ or_swap (t == ts) (has seen ts) (has times ts))
]

is_missing-distinct : (times : List ℕ) → is_missing (distinct times [] 0).0 ≡ is_missing times
is_missing-distinct times = fun_ext (λ ts. ap not (has-distinct times [] 0 ts))

-- the times of the candles that the query selects
abbrev pub times_of : GapScanInput → List Candle → ℕ → List ℕ
times_of input candles step =
    map Candle.open_time (
      select (is_selected input (align_ts input.start_ts step) (align_ts input.end_ts step))
        candles)

-- the bars that are expected
abbrev pub window_of : GapScanInput → ℕ → List ℕ
window_of input step =
    let start = align_ts input.start_ts step in
    bars step (count_expected start (align_ts input.end_ts step) step) start

minutes_pos :
    (interval : String) (table : List (String × ℕ)) (mins : ℕ)
    → All (λ e. 0 < e.1) table
    → minutes_in interval table ≡ some mins
    → 0 < mins
unfolding minutes_in
minutes_pos interval [] mins all e = cc
minutes_pos interval ((k, m) ∷ table) mins (first, rest) e =
    if-case {A = Option ℕ} (λ o. o ≡ some mins → 0 < mins) (str_eq k interval) (some m)
      (minutes_in interval table) (λ same h. subst (λ n. 0 < n) (eq_of_some-eq h) first)
      (λ other h. minutes_pos interval table mins rest h) e

in_ms_pos : (o : Option ℕ) (step : ℕ) → Always (λ n. 0 < n) o → in_ms o ≡ some step → 0 < step
in_ms_pos none step pos e = cc
in_ms_pos (some mins) step pos e = ground arith

interval_pos : (interval : String) (step : ℕ) → interval_to_ms interval ≡ some step → 0 < step
unfolding interval_to_ms interval_minutes
interval_pos interval step e = elim (Option-cases (minutes_in interval interval_minutes)) [
  | inl missing ↦ in_ms_pos _ step (rw missing tt) e
  | inr (mins, found) ↦
      in_ms_pos _ step (rw found (minutes_pos interval interval_minutes mins (omega arith) found)) e
]

module _ (step : ℕ) (pos : 0 < step) where
  result-Covers :
      (times : List ℕ) (start end n : ℕ) (found : Option RangeState)
      → Scanned step pos (distinct times [] 0).0 n start no_ranges found
      → Covers step
          (bars step n start)
          times
          (result_of (count_expected start end step) (distinct times [] 0) found)
  result-Covers times start end n none h = absurd h
  result-Covers times start end n (some s) (all, (ts, fits)) =
      (close-so_far step pos s.missing_ranges s.range_start s.prev_missing ts fits).0
      ∙ all
      ∙ ap (λ p. select p (bars step n start)) (is_missing-distinct times)

  scan_times-Covers :
      (a b : ℕ) (times : List ℕ)
      → Covers step
          (bars step (count_expected (a * step) (b * step) step) (a * step))
          times
          (scan_times step (a * step) (b * step) times)
  unfolding scan_times
  scan_times-Covers a b times =
      let n = count_expected (a * step) (b * step) step in
      result-Covers times (a * step) (b * step) n
        (scan_loop (distinct times [] 0).0 step (b * step) (suc n) (a * step) no_ranges)
        (scan_loop-Scanned step pos (distinct times [] 0).0 (b * step) (suc n) n (a * step)
          no_ranges (omega arith) (Left-count step pos a b) tt)

-- The scan returns, and its missing ranges, expanded bar by bar, give back exactly the bars of the
-- aligned window at which no selected candle opens, in order. Condition: the interval is supported.
pub missing_ranges_expand :
    (input : GapScanInput) (candles : List Candle) (step : ℕ)
    → interval_to_ms input.interval ≡ some step
    → Covers step (window_of input step) (times_of input candles step) (scan_coverage input candles)
unfolding scan_coverage align_ts
missing_ranges_expand input candles step supported = rw supported (
    scan_times-Covers step (interval_pos input.interval step supported) (input.start_ts / step)
      (input.end_ts / step) (times_of input candles step))

-- Every bar is counted once: as a duplicate, as an actual bar or as a missing one.
abbrev pub IsBalanced : ℕ → ℕ → List ℕ → Option GapScanResult → Type 0
IsBalanced step expected times none = ⊥
IsBalanced step expected times (some result) =
    (result.expected_bars ≡ expected)
    × (result.actual_bars + result.missing_bars ≡ expected)
    × (result.missing_bars ≡ length (expand_all step result.missing_ranges))
    × (result.actual_bars + result.duplicate_bars ≡ length times)

module _ (step : ℕ) (pos : 0 < step) where
  result-IsBalanced :
      (times : List ℕ) (start end : ℕ) (found : Option RangeState)
      → AreIn (bars step (count_expected start end step) start) times
      → Covers step
          (bars step (count_expected start end step) start)
          times
          (result_of (count_expected start end step) (distinct times [] 0) found)
      → IsBalanced step
          (count_expected start end step)
          times
          (result_of (count_expected start end step) (distinct times [] 0) found)
  result-IsBalanced times start end none on_grid h = absurd h
  result-IsBalanced times start end (some s) on_grid covered =
      let n = count_expected start end step in
      let window = bars step n start in
      let seen = (distinct times [] 0).0 in
      let missing = ap length covered in
      let present =
        count-has seen window (bars-IsDistinct step n start pos) (distinct-IsDistinct times [] 0 tt)
          (distinct-AreIn window times [] 0 tt on_grid) in
      let parts =
        subst (λ p. count (has seen) window + length (select p window) ≡ length window)
          (is_missing-distinct times) (count-select seen window) in
      let all = length-bars step n start in
      let rows = length-distinct times [] 0 in (refl, omega arith, omega arith, omega arith)

  scan_times-IsBalanced :
      (a b : ℕ) (times : List ℕ)
      → AreIn (bars step (count_expected (a * step) (b * step) step) (a * step)) times
      → IsBalanced step
          (length (bars step (count_expected (a * step) (b * step) step) (a * step)))
          times
          (scan_times step (a * step) (b * step) times)
  unfolding scan_times
  scan_times-IsBalanced a b times on_grid =
      let n = count_expected (a * step) (b * step) step in
      let found = scan_loop (distinct times [] 0).0 step (b * step) (suc n) (a * step) no_ranges in
      rw (length-bars step n (a * step)) (
        result-IsBalanced times (a * step) (b * step) found on_grid
          (scan_times-Covers step pos a b times))

-- If each selected candle opens at a bar of the window, then each expected bar is counted as actual
-- or as missing, the missing ones are as many as the missing ranges hold, and each row is counted as
-- actual or as a duplicate. Condition: the interval is supported.
pub scan_counts :
    (input : GapScanInput) (candles : List Candle) (step : ℕ)
    → interval_to_ms input.interval ≡ some step
    → AreIn (window_of input step) (times_of input candles step)
    → IsBalanced step
        (length (window_of input step))
        (times_of input candles step)
        (scan_coverage input candles)
unfolding scan_coverage align_ts
scan_counts input candles step supported on_grid = rw supported (
    scan_times-IsBalanced step (interval_pos input.interval step supported) (input.start_ts / step)
      (input.end_ts / step) (times_of input candles step) on_grid)
