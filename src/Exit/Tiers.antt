-- ===== src/Exit/Tiers.antt =====
-- The take-profit ladder of positions/exitPolicy.ts: each tier is taken once, and when its target
-- is reached; and `evaluateExit` never throws on a runtime that it wrote itself.
use arivion.Prelude.{
  ℕ, zero, suc, ◌+◌, ◌-◌, ◌≤◌, ◌<◌, ◌≡◌, refl, ap, ◌∙◌, sym, inl, inr, true, false, Option, none,
  some, List, [], ◌∷◌, ◌++◌, arith, Bool-cases, Option-cases, if◌then◌else◌, leb, length, get_elem?,
  Always, Always-some, Always-map, Always-any,
}
use mathlib.Core.Option
use arivion.Exit.Real.{Real}
use arivion.Exit.Policy.{
  TakeProfitTier, ExitPolicy, PositionRuntime, Side, PositionView, ExitDecision,
}
use arivion.Exit.Evaluate.{
  stop_before, lock_pct, ratchet_cleared, effective_stop, advance, decide, stop_hit, has_cleared,
  max_cleared, target_hit, evaluate_exit, take_profit_stage, take_profit_hits, unrealized_return,
  loses_too_much, hit_tiers, highest, held_too_long,
}

-- every index of the list is below `n`
abbrev pub AllBelow : ℕ → List ℕ → Type 0
AllBelow n [] = Unit
AllBelow n (i ∷ is) = (i < n) × AllBelow n is

max_cleared-lt : (n m : ℕ) (is : List ℕ) → m < n → AllBelow n is → max_cleared m is < n
max_cleared-lt n m [] h all = h
max_cleared-lt n m (i ∷ is) h all =
    max_cleared-lt n (if leb m i then i else m) is (ground arith) all.1

get_elem?-some :
    {A : Type 0} (xs : List A) (i : ℕ) → i < length xs → (x : A) × (get_elem? xs i ≡ some x)
get_elem?-some [] i h = elim h [ ]
get_elem?-some (x ∷ xs) zero h = (x, refl)
get_elem?-some (x ∷ xs) (suc i) h = get_elem?-some xs i (omega arith)

AllBelow-append : (n : ℕ) (is : List ℕ) (i : ℕ) → AllBelow n is → i < n → AllBelow n (is ++ i ∷ [])
AllBelow-append n [] i all h = (h, tt)
AllBelow-append n (j ∷ js) i all h = (all.0, AllBelow-append n js i all.1 h)

module _ (R : Real) where
  open R use {Num, le}

  lock_pct-some :
      (ladder : List (TakeProfitTier Num)) (i : ℕ)
      → i < length ladder
      → (pct : Num) × (lock_pct R ladder i ≡ some pct)
  unfolding lock_pct
  lock_pct-some ladder zero h = (R.zero, refl)
  lock_pct-some ladder (suc i) h =
      let (t, e) = get_elem?-some ladder i (omega arith) in (t.target_pct, rw e refl)

  -- a pair of the list is a tier of the ladder that is not cleared and whose target is reached
  abbrev IsHit :
      Side → Num → Num → List ℕ → List (TakeProfitTier Num) → ℕ → ℕ × TakeProfitTier Num → Type 0
  IsHit side entry mark cleared ladder base x =
      (base ≤ x.0)
      × (get_elem? ladder (x.0 - base) ≡ some x.1)
      × (x.0 < base + length ladder)
      × (has_cleared cleared x.0 ≡ false)
      × (target_hit R side entry x.1.target_pct mark ≡ true)

  abbrev AllHits : (ℕ × TakeProfitTier Num → Type 0) → List (ℕ × TakeProfitTier Num) → Type 0
  AllHits P [] = Unit
  AllHits P (x ∷ xs) = P x × AllHits P xs

  AllHits-mono :
      (P Q : ℕ × TakeProfitTier Num → Type 0) (xs : List (ℕ × TakeProfitTier Num))
      → ((x : ℕ × TakeProfitTier Num) → P x → Q x)
      → AllHits P xs
      → AllHits Q xs
  AllHits-mono P Q [] step h = tt
  AllHits-mono P Q (x ∷ xs) step h = (step x h.0, AllHits-mono P Q xs step h.1)

  get_elem?-pred :
      {A : Type 0} (x : A) (xs : List A) (i base : ℕ)
      → suc base ≤ i
      → get_elem? (x ∷ xs) (i - base) ≡ get_elem? xs (i - suc base)
  get_elem?-pred x xs i base h = let e : i - base ≡ suc (i - suc base) = omega arith in rw e refl

  hit_tiers-AllHits :
      (side : Side) (entry mark : Num) (cleared : List ℕ) (base : ℕ)
      (ladder : List (TakeProfitTier Num))
      → AllHits
          (IsHit side entry mark cleared ladder base)
          (hit_tiers R side entry mark cleared base ladder)
  unfolding hit_tiers
  hit_tiers-AllHits side entry mark cleared base [] = tt
  hit_tiers-AllHits side entry mark cleared base (t ∷ ts) =
      let rest =
        AllHits-mono (IsHit side entry mark cleared ts (suc base))
          (IsHit side entry mark cleared (t ∷ ts) base) _
          (λ x h. (omega arith, get_elem?-pred t ts x.0 base h.0 ∙ h.1, omega arith, h.3, h.4))
          (hit_tiers-AllHits side entry mark cleared (suc base) ts) in
      elim (Bool-cases (has_cleared cleared base)) [
        | inl taken ↦ rw taken rest
        | inr open_tier ↦
            rw open_tier (elim (Bool-cases (target_hit R side entry t.target_pct mark)) [
              | inr missed ↦ rw missed rest
              | inl reached ↦ rw reached (
                (
                  omega arith,
                  ap (get_elem? (t ∷ ts)) (let e : base - base ≡ 0 = omega arith in e),
                  omega arith,
                  open_tier,
                  reached,
                ),
                rest,
              )
            ])
      ]

  highest-P :
      (P : ℕ × TakeProfitTier Num → Type 0) (x : ℕ × TakeProfitTier Num)
      (xs : List (ℕ × TakeProfitTier Num))
      → P x
      → AllHits P xs
      → P (highest R x xs)
  unfolding highest
  highest-P P x [] h all = h
  highest-P P x (y ∷ ys) h all = elim (Bool-cases (le y.1.target_pct x.1.target_pct)) [
    | inl lower ↦ rw lower (highest-P P x ys h all.1)
    | inr higher ↦ rw higher (highest-P P y ys all.0 all.1)
  ]

  -- What it means that a decision at `mark` takes tier `i`.
  abbrev Takes : PositionView Num → Num → ℕ → ExitDecision Num → Type 0
  Takes view mark i d =
      (ladder : List (TakeProfitTier Num)) × (t : TakeProfitTier Num) × (view.policy.take_profit
        ≡ some ladder)
      × (get_elem? ladder i ≡ some t)
      × (target_hit R view.side view.entry_price t.target_pct mark ≡ true)
      × (has_cleared view.runtime.cleared_tiers i ≡ false)
      × (d.next_runtime.cleared_tiers ≡ view.runtime.cleared_tiers ++ i ∷ [])

  abbrev TakesWhatItSays : PositionView Num → Num → ExitDecision Num → Type 0
  TakesWhatItSays view mark d = (i : ℕ) → d.tier_index ≡ some i → Takes view mark i d

  take_profit_stage-Takes :
      (view : PositionView Num) (mark stop unrealized : Num) (rt : PositionRuntime Num)
      → rt.cleared_tiers ≡ view.runtime.cleared_tiers
      → (ladder : Option (List (TakeProfitTier Num))) → view.policy.take_profit ≡ ladder
      → Always (TakesWhatItSays view mark) (take_profit_stage R view ladder mark stop unrealized rt)
  unfolding take_profit_stage
  take_profit_stage-Takes view mark stop unrealized rt same none p = λ i e. cc
  take_profit_stage-Takes view mark stop unrealized rt same (some ladder) p =
      hits (hit_tiers R view.side view.entry_price mark rt.cleared_tiers 0 ladder)
        (hit_tiers-AllHits view.side view.entry_price mark rt.cleared_tiers 0 ladder)
    where
      hits :
          (xs : List (ℕ × TakeProfitTier Num))
          → AllHits (IsHit view.side view.entry_price mark rt.cleared_tiers ladder 0) xs
          → Always
              (TakesWhatItSays view mark)
              (take_profit_hits R view ladder xs stop unrealized rt)
      hits [] all = λ i e. cc
      hits (x ∷ xs) all =
          let best = highest R x xs in
          let hit =
            highest-P (IsHit view.side view.entry_price mark rt.cleared_tiers ladder 0) x xs all.0
              all.1 in
          Always-map (λ _. Unit {0}) (TakesWhatItSays view mark) _ (lock_pct R ladder best.0)
            (λ pct _ i e.
              let at : best.0 ≡ i = cc in
              let spot : best.0 - 0 ≡ i = omega arith in
              (
                ladder,
                best.1,
                p,
                sym (ap (get_elem? ladder) spot) ∙ hit.1,
                hit.4,
                rw (← at, ← same) hit.3,
                rw (at, same) refl,
              ))
            (Always-any (lock_pct R ladder best.0))

  decide-Takes :
      (view : PositionView Num) (mark : Num) (now : ℕ) (stop : Num)
      → Always (TakesWhatItSays view mark) (decide R view mark now stop (advance R view mark stop))
  unfolding decide
  decide-Takes view mark now stop =
      let unrealized = unrealized_return R view.side view.entry_price mark in
      elim (Bool-cases (stop_hit R view.side mark stop)) [
        | inl hit ↦ rw hit (λ i e. cc)
        | inr clear ↦
            rw clear (elim (Bool-cases (loses_too_much R view.policy.max_loss_pct unrealized)) [
              | inl lost ↦ rw lost (λ i e. cc)
              | inr small ↦
                  rw small
                    (elim (Bool-cases
                      (held_too_long R view.policy.max_hold_seconds view.opened_at_ms now)) [
                        | inl late ↦ rw late (λ i e. cc)
                        | inr early ↦ rw early (
                            take_profit_stage-Takes view mark stop unrealized
                              (advance R view mark stop) refl view.policy.take_profit refl)
                      ])
            ])
      ]

  -- A decision that names tier `i` names a tier of the policy's ladder whose target the mark has
  -- reached and that was not cleared before, and the runtime that it leaves has that tier cleared in addition to those before.
  pub tier_taken_once :
      (view : PositionView Num) (mark : Num) (now : ℕ) (d : ExitDecision Num) (i : ℕ)
      → evaluate_exit R view mark now ≡ some d
      → d.tier_index ≡ some i
      → (ladder : List (TakeProfitTier Num)) × (t : TakeProfitTier Num) × (view.policy.take_profit
          ≡ some ladder)
        × (get_elem? ladder i ≡ some t)
        × (target_hit R view.side view.entry_price t.target_pct mark ≡ true)
        × (has_cleared view.runtime.cleared_tiers i ≡ false)
        × (d.next_runtime.cleared_tiers ≡ view.runtime.cleared_tiers ++ i ∷ [])
  unfolding evaluate_exit
  tier_taken_once view mark now d i e named = elim (Option-cases (effective_stop R view mark)) [
    | inl thrown ↦ cc (rw (thrown, evaluate_exit) at e)
    | inr (stop, es) ↦
        Always-some (TakesWhatItSays view mark) _ d (decide-Takes view mark now stop)
          (rw (es, evaluate_exit) at e) i named
  ]

  abbrev ladder_length : ExitPolicy Num → ℕ
  ladder_length p = elim p.take_profit [ none ↦ 0 | some ladder ↦ length ladder ]

  -- a result that is there, and that leaves only indices below `n` cleared
  abbrev Returns : ℕ → Option (ExitDecision Num) → Type 0
  Returns n o = (d : ExitDecision Num) × (o ≡ some d) × AllBelow n d.next_runtime.cleared_tiers

  ratchet_cleared-some :
      (side : Side) (entry : Num) (ladder : Option (List (TakeProfitTier Num))) (cleared : List ℕ)
      (stop : Num)
      → AllBelow (elim ladder [ none ↦ 0 | some l ↦ length l ]) cleared
      → (s : Num) × (ratchet_cleared R side entry ladder cleared stop ≡ some s)
  unfolding ratchet_cleared
  ratchet_cleared-some side entry none cleared stop all = (stop, refl)
  ratchet_cleared-some side entry (some ladder) [] stop all = (stop, refl)
  ratchet_cleared-some side entry (some ladder) (i ∷ is) stop all =
      let (pct, e) =
        lock_pct-some ladder (max_cleared i is) (max_cleared-lt (length ladder) i is all.0 all.1) in
      (_, ap (Option.map _) e)

  take_profit_stage-Returns :
      (view : PositionView Num) (mark stop unrealized : Num) (rt : PositionRuntime Num)
      (ladder : Option (List (TakeProfitTier Num)))
      → AllBelow (elim ladder [ none ↦ 0 | some l ↦ length l ]) rt.cleared_tiers
      → Returns
          (elim ladder [ none ↦ 0 | some l ↦ length l ])
          (take_profit_stage R view ladder mark stop unrealized rt)
  unfolding take_profit_stage
  take_profit_stage-Returns view mark stop unrealized rt none all = (_, refl, all)
  take_profit_stage-Returns view mark stop unrealized rt (some ladder) all =
      hits (hit_tiers R view.side view.entry_price mark rt.cleared_tiers 0 ladder)
        (hit_tiers-AllHits view.side view.entry_price mark rt.cleared_tiers 0 ladder)
    where
      hits :
          (xs : List (ℕ × TakeProfitTier Num))
          → AllHits (IsHit view.side view.entry_price mark rt.cleared_tiers ladder 0) xs
          → Returns (length ladder) (take_profit_hits R view ladder xs stop unrealized rt)
      hits [] hit = (_, refl, all)
      hits (x ∷ xs) hit =
          let best = highest R x xs in
          let found =
            highest-P (IsHit view.side view.entry_price mark rt.cleared_tiers ladder 0) x xs hit.0
              hit.1 in
          let inside : best.0 < length ladder = omega arith in
          let (pct, e) = lock_pct-some ladder best.0 inside in
          (
            _,
            ap (Option.map _) e,
            AllBelow-append (length ladder) rt.cleared_tiers best.0 all inside,
          )

  decide-Returns :
      (view : PositionView Num) (mark : Num) (now : ℕ) (stop : Num) (rt : PositionRuntime Num)
      → AllBelow (ladder_length view.policy) rt.cleared_tiers
      → Returns (ladder_length view.policy) (decide R view mark now stop rt)
  unfolding decide
  decide-Returns view mark now stop rt all =
      let unrealized = unrealized_return R view.side view.entry_price mark in
      elim (Bool-cases (stop_hit R view.side mark stop)) [
        | inl hit ↦ rw hit (_, refl, all)
        | inr clear ↦
            rw clear (elim (Bool-cases (loses_too_much R view.policy.max_loss_pct unrealized)) [
              | inl lost ↦ rw lost (_, refl, all)
              | inr small ↦
                  rw small
                    (elim (Bool-cases
                      (held_too_long R view.policy.max_hold_seconds view.opened_at_ms now)) [
                        | inl late ↦ rw late (_, refl, all)
                        | inr early ↦ rw early (
                            take_profit_stage-Returns view mark stop unrealized rt
                              view.policy.take_profit all)
                      ])
            ])
      ]

  -- If every cleared tier is an index of the ladder, as in the runtime of a new position, then
  -- `evaluateExit` returns a decision, and every cleared tier is an index of the ladder afterwards.
  pub evaluate_exit_total :
      (view : PositionView Num) (mark : Num) (now : ℕ)
      → AllBelow (ladder_length view.policy) view.runtime.cleared_tiers
      → (d : ExitDecision Num) × (evaluate_exit R view mark now ≡ some d)
        × AllBelow (ladder_length view.policy) d.next_runtime.cleared_tiers
  unfolding evaluate_exit effective_stop
  evaluate_exit_total view mark now all =
      let (s, e) =
        ratchet_cleared-some view.side view.entry_price view.policy.take_profit
          view.runtime.cleared_tiers (stop_before R view) all in
      rw (e, evaluate_exit) (decide-Returns view mark now _ (advance R view mark _) all)
