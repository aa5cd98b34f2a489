-- ===== src/Coverage/Buckets.antt =====
-- missingRangesFromBuckets and bucketedCoverage of index.ts of apps/api/src: which parts of a window
-- a source has rows in. Times are milliseconds, as naturals; the rows of the source are an argument.
use arivion.Prelude.{
  ℕ, zero, suc, ◌+◌, ◌-◌, ◌*◌, ◌/◌, min, max, ◌&&◌, Option, none, some, List, [], ◌∷◌, ◌++◌, length,
  map, select, leb, ltb, if◌then◌else◌,
}
use arivion.Coverage.Scan.{has, distinct}

pub record MissingRange : Type 0 where
  pub start_ms : ℕ
  pub end_ms : ℕ

pub record BucketedCoverage : Type 0 where
  -- the numerator and the denominator of `coverage_pct`
  pub covered : ℕ
  pub total : ℕ
  pub missing_ranges : List MissingRange
  pub rows : ℕ

module _ (present : List ℕ) (start effective_end bucket : ℕ) where
  -- the run that is open, as a range that ends at `end`
  abbrev pub close_run : ℕ → Option ℕ → List MissingRange → List MissingRange
  close_run end none missing = missing
  close_run end (some run) missing =
      missing ++ record { start_ms = start + run * bucket; end_ms = end } ∷ []

  abbrev pub run_from : ℕ → Option ℕ → Option ℕ
  run_from b none = some b
  run_from b (some run) = some run

  -- `for (let b = 0; b < total; b += 1)`, by the rounds left; `runStart` is `none` where it is -1.
  unfoldable pub bucket_loop : ℕ → ℕ → Option ℕ → List MissingRange → List MissingRange
  bucket_loop zero b run missing = close_run effective_end run missing
  bucket_loop (suc left) b run missing =
      bucket_loop left (suc b) (if has present b then none else run_from b run)
        (if has present b then close_run (start + b * bucket) run missing else missing)

  unfoldable pub missing_ranges_from_buckets : ℕ → List MissingRange
  unfolding bucket_loop
  missing_ranges_from_buckets total = bucket_loop total 0 none []

-- `Math.max(1, Math.min(Math.ceil(Math.max(0, endMs - startMs) / safeBucketMs), 20_000))`
unfoldable pub total_buckets : ℕ → ℕ → ℕ → ℕ
total_buckets start end bucket = max 1 (min ((end - start + (bucket - 1)) / bucket) 20000)

-- the buckets of the rows of the window
abbrev pub buckets_of : ℕ → ℕ → ℕ → List ℕ → List ℕ
buckets_of start effective_end bucket rows =
    map (λ t. (t - start) / bucket) (select (λ t. leb start t && ltb t effective_end) rows)

unfoldable pub bucketed_coverage : ℕ → ℕ → ℕ → List ℕ → BucketedCoverage
unfolding distinct missing_ranges_from_buckets total_buckets
bucketed_coverage start end bucket_ms rows =
    let bucket = max 1 bucket_ms in
    let total = total_buckets start end bucket in
    let effective_end = start + total * bucket in
    let buckets = buckets_of start effective_end bucket rows in
    let present = (distinct buckets [] 0).0 in
    record {
      covered = min (length present) total;
      total = total;
      missing_ranges = missing_ranges_from_buckets present start effective_end bucket total;
      rows = length buckets;
    }
