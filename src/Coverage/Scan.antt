-- ===== src/Coverage/Scan.antt =====
-- lib/gapScanner.ts of apps/api/src: scanCoverage. Times are milliseconds since 1970, as naturals.
-- The rows of `candles` are an argument, in the order that the query gives them.
use arivion.Prelude.{
  ℕ, zero, suc, ◌+◌, ◌-◌, ◌/◌, String, Bool, ◌&&◌, Option, none, some, List, [], ◌∷◌, ◌++◌, length,
  any, map, select, str_eq, ◌==◌, leb, if◌then◌else◌,
}
use arivion.Coverage.Interval.{interval_to_ms, align_ts}

pub record GapScanInput : Type 0 where
  pub symbol : String
  pub category : String
  pub interval : String
  pub start_ts : ℕ
  pub end_ts : ℕ

-- a row of `candles`
pub record Candle : Type 0 where
  pub symbol : String
  pub category : String
  pub interval : String
  pub open_time : ℕ

pub record TsRange : Type 0 where
  pub start_ts : ℕ
  pub end_ts : ℕ

pub record GapScanResult : Type 0 where
  pub expected_bars : ℕ
  pub actual_bars : ℕ
  pub duplicate_bars : ℕ
  pub missing_bars : ℕ
  pub missing_ranges : List TsRange

-- the variables of the loop over the expected times
pub record RangeState : Type 0 where
  pub range_start : Option ℕ
  pub prev_missing : Option ℕ
  pub missing_ranges : List TsRange

-- `seen.has(ts)`
abbrev pub has : List ℕ → ℕ → Bool
has seen ts = any (λ t. t == ts) seen

-- the distinct times, and how many rows repeat one
unfoldable pub distinct : List ℕ → List ℕ → ℕ → List ℕ × ℕ
distinct [] seen duplicates = (seen, duplicates)
distinct (ts ∷ rows) seen duplicates =
    distinct rows (if has seen ts then seen else ts ∷ seen)
      (if has seen ts then suc duplicates else duplicates)

-- the range that is open is closed
abbrev closed_with : List TsRange → Option ℕ → Option ℕ → RangeState
closed_with ranges (some start) (some prev) = record {
  range_start = none;
  prev_missing = none;
  missing_ranges = ranges ++ record { start_ts = start; end_ts = prev } ∷ [];
}
closed_with ranges start prev = record {
  range_start = start;
  prev_missing = prev;
  missing_ranges = ranges;
}

unfoldable pub close_range : RangeState → RangeState
close_range s = closed_with s.missing_ranges s.range_start s.prev_missing

abbrev opened_at : ℕ → Option ℕ → Option ℕ
opened_at ts none = some ts
opened_at ts (some start) = some start

-- one expected time
unfoldable pub visit : List ℕ → ℕ → RangeState → RangeState
unfolding close_range
visit seen ts s =
    if has seen ts
    then close_range s
    else record s { range_start = opened_at ts s.range_start; prev_missing = some ts }

-- `for (expectedTs = alignedStartTs; expectedTs <= alignedEndTs; expectedTs += step)`, with fuel;
-- `none` means that the fuel ran out.
unfoldable pub scan_loop : List ℕ → ℕ → ℕ → ℕ → ℕ → RangeState → Option RangeState
unfolding visit
scan_loop seen step end zero ts s = none
scan_loop seen step end (suc fuel) ts s =
    let rest = scan_loop seen step end fuel (ts + step) (visit seen ts s) in
    if leb ts end then rest else some s

abbrev pub no_ranges : RangeState
no_ranges = record { range_start = none; prev_missing = none; missing_ranges = [] }

-- `Math.max(0, Math.floor((alignedEndTs - alignedStartTs) / step) + 1)` of aligned times
unfoldable pub count_expected : ℕ → ℕ → ℕ → ℕ
count_expected start end step = if leb start end then suc ((end - start) / step) else 0

-- the WHERE of the query
abbrev pub is_selected : GapScanInput → ℕ → ℕ → Candle → Bool
is_selected input start end c =
    str_eq c.symbol input.symbol
    && str_eq c.category input.category
    && str_eq c.interval input.interval
    && leb start c.open_time
    && leb c.open_time end

abbrev pub result_of : ℕ → List ℕ × ℕ → Option RangeState → Option GapScanResult
result_of expected (seen, duplicates) none = none
result_of expected (seen, duplicates) (some s) = some (record {
  expected_bars = expected;
  actual_bars = length seen;
  duplicate_bars = duplicates;
  missing_bars = expected - length seen;
  missing_ranges = (close_range s).missing_ranges;
})

-- the scan between aligned times, of the times that the query returns
unfoldable pub scan_times : ℕ → ℕ → ℕ → List ℕ → Option GapScanResult
unfolding close_range distinct scan_loop count_expected
scan_times step start end times =
    let found = distinct times [] 0 in
    let expected = count_expected start end step in
    result_of expected found (scan_loop found.0 step end (suc expected) start no_ranges)

abbrev scan_with : GapScanInput → List Candle → Option ℕ → Option GapScanResult
scan_with input candles none = none
scan_with input candles (some step) =
    let start = align_ts input.start_ts step in
    let end = align_ts input.end_ts step in
    scan_times step start end (map Candle.open_time (select (is_selected input start end) candles))

unfoldable pub scan_coverage : GapScanInput → List Candle → Option GapScanResult
unfolding interval_to_ms align_ts scan_times
scan_coverage input candles = scan_with input candles (interval_to_ms input.interval)
