-- ===== src/Coverage/Full.antt =====
-- What coverageRequirementsMet (index.ts) says about the rows, where only a full coverage of the
-- window reaches the thresholds.
use arivion.Prelude.{
  ap, ℕ, zero, suc, ◌+◌, ◌-◌, ◌*◌, ◌/◌, max, ◌≤◌, ◌<◌, String, ◌≡◌, refl, sym, ◌∙◌, Bool, true,
  false, List, [], ◌∷◌, ◌++◌, ◌&&◌, any, leb, ltb, Bool-cases, inl, inr, arith,
}
use mathlib.Core.Path.{subst}
use native.Mathlib.Nat.{div-lt_iff_lt-mul, mul-le-mul_right}
use arivion.Coverage.Scan.{has, distinct}
use arivion.Coverage.Ranges.{bars}
use arivion.Coverage.RoundTrip.{has-distinct}
use arivion.Coverage.Buckets.{bucketed_coverage, buckets_of, total_buckets}
use arivion.Coverage.Counts.{
  AreIn, distinct-IsDistinct, distinct-AreIn, count-has, length-bars, bars-IsDistinct, all_there,
}
use arivion.Coverage.Windows.{falls_in, buckets_of-has}
use arivion.Coverage.Gate.{
  l2_queue_full, normalize_coverage_mode, Sources, CoverageProof, Requirement,
  compute_coverage_proof, Thresholds, below, push_if, is_empty, coverage_requirements,
  coverage_requirements_met,
}

has-bars : (n ts j : ℕ) → ts ≤ j → j < ts + n → has (bars 1 n ts) j ≡ true
unfolding bars
has-bars zero ts j le lt = absurd (omega arith)
has-bars (suc n) ts j le lt = ground (arith, has-bars n (ts + 1) j)

in_window :
    (start bucket total row : ℕ)
    → 0 < bucket
    → 0 < total
    → row < start + total * bucket
    → (row - start) / bucket < total
in_window start bucket total row pos some_left lt =
    (div-lt_iff_lt-mul pos).1 (omega (arith, mul-le-mul_right {m = 1} bucket some_left))

within : (start row end : ℕ) → (leb start row && ltb row end) ≡ true → row < end
within start row end h = ground arith

buckets_of-AreIn :
    (start bucket total : ℕ) (rows : List ℕ)
    → 0 < bucket
    → 0 < total
    → AreIn (bars 1 total 0) (buckets_of start (start + total * bucket) bucket rows)
buckets_of-AreIn start bucket total [] pos some_left = tt
buckets_of-AreIn start bucket total (row ∷ rows) pos some_left =
    elim (Bool-cases (leb start row && ltb row (start + total * bucket))) [
      | inl t ↦ rw t (
        has-bars total 0 _ (omega arith)
            (omega (arith, in_window start bucket total row pos some_left (within start row _ t))),
        buckets_of-AreIn start bucket total rows pos some_left,
      )
      | inr t ↦ rw t (buckets_of-AreIn start bucket total rows pos some_left)
    ]

-- With a full count, each bucket has a row.
full_bucket :
    (start end bucket_ms k : ℕ) (rows : List ℕ)
    → k < total_buckets start end (max 1 bucket_ms)
    → (bucketed_coverage start end bucket_ms rows).total
      ≤ (bucketed_coverage start end bucket_ms rows).covered
    → any (falls_in start (max 1 bucket_ms) k) rows ≡ true
unfolding bucketed_coverage
full_bucket start end bucket_ms k rows lt full =
    let bucket = max 1 bucket_ms in
    let total = total_buckets start end bucket in
    let buckets = buckets_of start (start + total * bucket) bucket rows in
    let present = (distinct buckets [] 0).0 in
    let window = bars 1 total 0 in
    let all = length-bars 1 total 0 in
    let counted =
      count-has present window (bars-IsDistinct 1 total 0 (omega arith))
        (distinct-IsDistinct buckets [] 0 tt)
        (distinct-AreIn window buckets [] 0 tt
          (buckets_of-AreIn start bucket total rows (omega arith) (omega arith))) in
    let here =
      all_there present window k (omega arith) (has-bars total 0 k (omega arith) (omega arith)) in
    sym (buckets_of-has start bucket total k rows (omega arith) lt)
    ∙ sym (has-distinct buckets [] 0 k)
    ∙ here

full_bucket_at :
    (start end bucket k : ℕ) (rows : List ℕ)
    → max 1 bucket ≡ bucket
    → k < total_buckets start end bucket
    → (bucketed_coverage start end bucket rows).total
      ≤ (bucketed_coverage start end bucket rows).covered
    → any (falls_in start bucket k) rows ≡ true
full_bucket_at start end bucket k rows same lt full =
    subst (λ b. any (falls_in start b k) rows ≡ true) same
      (full_bucket start end bucket k rows
        (subst (λ b. k < total_buckets start end b) (sym same) lt) full)

pushed_none :
    (b : Bool) (r : Requirement) (rest : List Requirement)
    → is_empty (push_if b r ++ rest) ≡ true
    → (b ≡ false) × (is_empty rest ≡ true)
pushed_none true r rest h = cc
pushed_none false r rest h = (refl, h)

module _ {N : Type 0} (lt : N → N → Bool) (ratio : ℕ → ℕ → N) where
  -- Of so many buckets, only a full coverage reaches the threshold.
  abbrev IsFull : ℕ → N → Type 0
  IsFull total threshold =
      (covered : ℕ) → lt (ratio covered total) threshold ≡ false → total ≤ covered

  full_source :
      (start end interval_ms k : ℕ) (rows : List ℕ) (threshold : N)
      → IsFull (total_buckets start end (max 1 interval_ms)) threshold
      → below lt ratio (bucketed_coverage start end (max 1 interval_ms) rows) threshold ≡ false
      → k < total_buckets start end (max 1 interval_ms)
      → any (falls_in start (max 1 interval_ms) k) rows ≡ true
  unfolding bucketed_coverage
  full_source start end interval_ms k rows threshold full reached below_total =
      let bucket = max 1 interval_ms in
      let proof = bucketed_coverage start end bucket rows in
      let same : max 1 bucket ≡ bucket = omega arith in
      let total : proof.total ≡ total_buckets start end bucket =
        ap (total_buckets start end) same in
      full_bucket_at start end bucket k rows same below_total (
        subst (λ t. t ≤ proof.covered) (sym total)
          (full proof.covered
            (subst (λ t. lt (ratio proof.covered t) threshold ≡ false) total reached)))

  queue_tests :
      (thresholds : Thresholds N) (p : CoverageProof) (leveraged funding : Bool)
      → is_empty (coverage_requirements lt ratio thresholds p l2_queue_full leveraged funding)
        ≡ true
      → (below lt ratio p.candles thresholds.candles ≡ false)
        × (below lt ratio p.l2_snapshots thresholds.l2 ≡ false)
        × (below lt ratio p.trades thresholds.trades ≡ false)
  unfolding coverage_requirements
  queue_tests thresholds p leveraged funding h =
      let (candles, more) = pushed_none (below lt ratio p.candles thresholds.candles) _ _ h in
      let (l2, rest) = pushed_none (below lt ratio p.l2_snapshots thresholds.l2) _ _ more in
      (candles, l2, (pushed_none (below lt ratio p.trades thresholds.trades) _ _ rest).0)

-- A window that meets the requirements of the mode "l2_queue_full" has a candle, a snapshot of the
-- order book and a trade in every bucket that is examined. Condition: of the number of buckets of
-- the window, only a full coverage has a ratio that reaches the thresholds of the three.
pub met_window_has_rows :
    {N : Type 0} (lt : N → N → Bool) (ratio : ℕ → ℕ → N) (thresholds : Thresholds N) (mode : String)
    (leveraged funding : Bool) (start end interval_ms k : ℕ) (sources : Sources)
    → normalize_coverage_mode mode ≡ l2_queue_full
    → IsFull lt ratio (total_buckets start end (max 1 interval_ms)) thresholds.candles
    → IsFull lt ratio (total_buckets start end (max 1 interval_ms)) thresholds.l2
    → IsFull lt ratio (total_buckets start end (max 1 interval_ms)) thresholds.trades
    → coverage_requirements_met lt ratio thresholds
        (compute_coverage_proof start end interval_ms sources)
        mode
        leveraged
        funding
      ≡ true
    → k < total_buckets start end (max 1 interval_ms)
    → (any (falls_in start (max 1 interval_ms) k) sources.candles ≡ true)
      × (any (falls_in start (max 1 interval_ms) k) sources.l2_snapshots ≡ true)
      × (any (falls_in start (max 1 interval_ms) k) sources.trades ≡ true)
unfolding coverage_requirements_met compute_coverage_proof
met_window_has_rows lt ratio thresholds mode leveraged funding start end interval_ms k sources queue
      c l t met below_total =
    let p = compute_coverage_proof start end interval_ms sources in
    let (candles, l2, trades) =
      queue_tests lt ratio thresholds p leveraged funding (rw queue at met) in
    (
      full_source lt ratio start end interval_ms k sources.candles thresholds.candles c candles
          below_total,
      full_source lt ratio start end interval_ms k sources.l2_snapshots thresholds.l2 l l2
          below_total,
      full_source lt ratio start end interval_ms k sources.trades thresholds.trades t trades
          below_total,
    )
