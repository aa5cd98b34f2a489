-- ===== src/Coverage/Windows.antt =====
-- The missing ranges of bucketedCoverage (index.ts) against the rows of the source.
use arivion.Prelude.{
  leb_of_le, leb_of_gt, ltb_of_lt, ltb_of_ge, ℕ, zero, suc, ◌+◌, ◌-◌, ◌*◌, ◌/◌, max, ◌≤◌, ◌<◌, ◌≡◌,
  ◌≢◌, refl, sym, ap, ◌∙◌, Bool, true, false, not, ◌&&◌, ◌||◌, ◌⊎◌, Option, none, some, List, [],
  ◌∷◌, ◌++◌, any, map, select, leb, ltb, ◌==◌, if◌then◌else◌, Bool-cases, inl, inr, arith,
}
use native.Mathlib.Nat.{mul-le-mul_right, suc-mul, le-div_iff_mul-le}
use arivion.Coverage.Scan.{has, distinct}
use arivion.Coverage.RoundTrip.{has-distinct}
use arivion.Coverage.Buckets.{
  MissingRange, close_run, run_from, bucket_loop, missing_ranges_from_buckets, total_buckets,
  buckets_of, bucketed_coverage,
}

abbrev pub holds : ℕ → MissingRange → Bool
holds t r = leb r.start_ms t && ltb t r.end_ms

-- `t` is in a missing range.
abbrev pub is_reported : List MissingRange → ℕ → Bool
is_reported ranges t = any (holds t) ranges

any-snoc :
    (p : MissingRange → Bool) (rs : List MissingRange) (r : MissingRange)
    → any p (rs ++ r ∷ []) ≡ (any p rs || p r)
any-snoc p [] r = ground arith
any-snoc p (q ∷ rs) r = ground (arith, any-snoc p rs r)

le_or_lt : (a b : ℕ) → (a ≤ b) ⊎ (b < a)
le_or_lt a b = omega arith

split : (b k : ℕ) → (k ≢ b) ⊎ (k ≡ b)
split b k = omega arith

or_assoc : (a b c : Bool) → ((a || b) || c) ≡ (a || (b || c))
or_assoc true b c = refl
or_assoc false b c = refl

has-select :
    (q : ℕ → Bool) (f : ℕ → ℕ) (k row : ℕ) (rows : List ℕ)
    → has (map f (select q (row ∷ rows))) k
      ≡ ((if q row then f row == k else false) || has (map f (select q rows)) k)
has-select q f k row rows = elim (Bool-cases (q row)) [ inl t ↦ rw t | inr t ↦ rw t ]

module _ (start bucket : ℕ) where
  -- the time `o` milliseconds into bucket `k`
  abbrev pub at : ℕ → ℕ → ℕ
  at k o = start + k * bucket + o

  late : (b k o : ℕ) → b ≤ k → start + b * bucket ≤ at k o
  late b k o le = omega (arith, mul-le-mul_right bucket le)

  early : (b k o : ℕ) → o < bucket → k < b → at k o < start + b * bucket
  early b k o inside lt = omega (arith, mul-le-mul_right {m = suc k} bucket lt, suc-mul k bucket)

  from_start : (r k o : ℕ) → o < bucket → leb (start + r * bucket) (at k o) ≡ leb r k
  from_start r k o inside = elim (le_or_lt r k) [
    | inl le ↦ leb_of_le _ _ (late r k o le) ∙ sym (leb_of_le r k le)
    | inr gt ↦ leb_of_gt _ _ (early r k o inside gt) ∙ sym (leb_of_gt r k gt)
  ]

  before_end : (b k o : ℕ) → o < bucket → ltb (at k o) (start + b * bucket) ≡ ltb k b
  before_end b k o inside = elim (le_or_lt b k) [
    | inl le ↦ ltb_of_ge _ _ (late b k o le) ∙ sym (ltb_of_ge k b le)
    | inr gt ↦ ltb_of_lt _ _ (early b k o inside gt) ∙ sym (ltb_of_lt k b gt)
  ]

  -- Bucket `k` is in the run that is open before bucket `b`.
  abbrev in_run : Option ℕ → ℕ → ℕ → Bool
  in_run none b k = false
  in_run (some r) b k = leb r k && ltb k b

  abbrev Fits : Option ℕ → ℕ → Type 0
  Fits none b = Unit
  Fits (some r) b = r ≤ b

  module _ (present : List ℕ) (end k o : ℕ) (inside : o < bucket) where
    reported_close :
        (missing : List MissingRange) (run : Option ℕ) (b : ℕ)
        → is_reported (close_run present start end bucket (start + b * bucket) run missing) (at k o)
          ≡ (is_reported missing (at k o) || in_run run b k)
    reported_close missing none b = ground arith
    reported_close missing (some r) b =
        any-snoc (holds (at k o)) missing _
        ∙ ap (λ c. is_reported missing (at k o) || c)
            (rw (from_start r k o inside, before_end b k o inside))

    run_from-Fits :
        (run : Option ℕ) (b : ℕ)
        → Fits run b
        → Fits (run_from present start end bucket b run) (suc b)
    run_from-Fits none b fits = omega arith
    run_from-Fits (some r) b fits = omega arith

    -- what the rest of the loop adds
    abbrev pub lacks : ℕ → Bool
    lacks b = leb b k && not (has present k)

    at_bucket : (b : ℕ) (m : Bool) → k ≡ b → has present b ≡ m → not (has present k) ≡ not m
    at_bucket b m same e = ap (λ u. not (has present u)) same ∙ ap not e

    step_absent :
        (run : Option ℕ) (b : ℕ)
        → has present b ≡ false
        → Fits run b
        → (in_run (run_from present start end bucket b run) (suc b) k || lacks (suc b))
          ≡ (in_run run b k || lacks b)
    step_absent none b absent fits = elim (split b k) [
      | inl other ↦ ground arith
      | inr same ↦ let gone = at_bucket b false same absent in ground arith
    ]
    step_absent (some r) b absent fits = elim (split b k) [
      | inl other ↦ ground arith
      | inr same ↦ let gone = at_bucket b false same absent in ground arith
    ]

    step_present : (b : ℕ) → has present b ≡ true → lacks (suc b) ≡ lacks b
    step_present b here = elim (split b k) [
      | inl other ↦ ground arith
      | inr same ↦ let found = at_bucket b true same here in ground arith
    ]

    no_more : (run : Option ℕ) (b : ℕ) → k < b → in_run run b k ≡ (in_run run b k || lacks b)
    no_more none b lt = ground arith
    no_more (some r) b lt = ground arith

    bucket_loop-reported :
        (left b : ℕ) (run : Option ℕ) (missing : List MissingRange)
        → k < b + left
        → Fits run b
        → end ≡ start + (b + left) * bucket
        → is_reported (bucket_loop present start end bucket left b run missing) (at k o)
          ≡ (is_reported missing (at k o) || (in_run run b k || lacks b))
    unfolding bucket_loop
    bucket_loop-reported zero b run missing lt fits e =
        ap (λ x. is_reported (close_run present start end bucket x run missing) (at k o))
          (e ∙ ap (λ n. start + n * bucket) (omega arith))
        ∙ reported_close missing run b
        ∙ ap (λ c. is_reported missing (at k o) || c) (no_more run b (omega arith))
    bucket_loop-reported (suc left) b run missing lt fits e = elim (Bool-cases (has present b)) [
      | inl here ↦ rw here (
          bucket_loop-reported left (suc b) none _ (omega arith) tt
            (e ∙ ap (λ n. start + n * bucket) (omega arith))
          ∙ ap (λ c. c || lacks (suc b)) (reported_close missing run b)
          ∙ ap (λ c. (is_reported missing (at k o) || in_run run b k) || c) (step_present b here)
          ∙ or_assoc (is_reported missing (at k o)) (in_run run b k) (lacks b))
      | inr absent ↦ rw absent (
          bucket_loop-reported left (suc b) (run_from present start end bucket b run) missing
            (omega arith) (run_from-Fits run b fits)
            (e ∙ ap (λ n. start + n * bucket) (omega arith))
          ∙ ap (λ c. is_reported missing (at k o) || c) (step_absent run b absent fits))
    ]

    missing_ranges-reported :
        (total : ℕ)
        → k < total
        → end ≡ start + total * bucket
        → is_reported (missing_ranges_from_buckets present start end bucket total) (at k o)
          ≡ not (has present k)
    unfolding missing_ranges_from_buckets
    missing_ranges-reported total lt e =
        bucket_loop-reported total 0 none [] (omega arith) tt
          (e ∙ ap (λ n. start + n * bucket) (omega arith))
        ∙ ground arith

  -- A row falls in bucket `k`.
  abbrev pub falls_in : ℕ → ℕ → Bool
  falls_in k row = leb start row && (row - start) / bucket == k

  row_bucket :
      (total k row : ℕ)
      → 0 < bucket
      → k < total
      → (if leb start row && ltb row (start + total * bucket)
          then (row - start) / bucket == k
          else false)
        ≡ falls_in k row
  row_bucket total k row pos lt = elim (le_or_lt (start + total * bucket) row) [
    | inl late ↦
        let far : total ≤ (row - start) / bucket = (le-div_iff_mul-le pos).1 (omega arith) in
        ground arith
    | inr early ↦ ground arith
  ]

  pub buckets_of-has :
      (total k : ℕ) (rows : List ℕ)
      → 0 < bucket
      → k < total
      → has (buckets_of start (start + total * bucket) bucket rows) k ≡ any (falls_in k) rows
  buckets_of-has total k [] pos lt = refl
  buckets_of-has total k (row ∷ rows) pos lt =
      has-select (λ t. leb start t && ltb t (start + total * bucket)) (λ t. (t - start) / bucket) k
        row rows
      ∙ ap (λ c. c || has (buckets_of start (start + total * bucket) bucket rows) k)
          (row_bucket total k row pos lt)
      ∙ ap (λ c. falls_in k row || c) (buckets_of-has total k rows pos lt)

-- A time of the window that is examined is in a missing range exactly if no row of the source falls
-- in the bucket of that time. The window that is examined ends after 20,000 buckets at most. The
-- time is written as an offset into bucket `k`.
pub bucketed_coverage_reported :
    (start end bucket_ms k o : ℕ) (rows : List ℕ)
    → k < total_buckets start end (max 1 bucket_ms)
    → o < max 1 bucket_ms
    → is_reported
        (bucketed_coverage start end bucket_ms rows).missing_ranges
        (start + k * max 1 bucket_ms + o)
      ≡ not (any (falls_in start (max 1 bucket_ms) k) rows)
unfolding bucketed_coverage
bucketed_coverage_reported start end bucket_ms k o rows lt inside =
    let bucket = max 1 bucket_ms in
    let total = total_buckets start end bucket in
    let buckets = buckets_of start (start + total * bucket) bucket rows in
    missing_ranges-reported start bucket (distinct buckets [] 0).0 (start + total * bucket) k o
      inside total lt refl
    ∙ ap not
        (has-distinct buckets [] 0 k ∙ buckets_of-has start bucket total k rows (omega arith) lt)
