-- ===== src/Exit/Ratchet.antt =====
-- The stop of positions/exitPolicy.ts moves in the protective direction only, so a mark beyond the
-- stored stop always closes the position.
use arivion.Prelude.{
  ℕ, ◌≡◌, refl, ◌∙◌, sym, ◌⊎◌, inl, inr, Bool, true, false, Option, none, some, List, [], ◌∷◌,
  Bool-cases, Option-cases, Always, Always-some, Always-map, Always-any, Always-mono,
}
use mathlib.Core.Bool.{false≢true}
use arivion.Exit.Real.{Real}
use arivion.Exit.Policy.{
  TakeProfitTier, Trailing, PositionRuntime, Side, long, short, PositionView, ExitReason, Action,
  ExitDecision,
}
use arivion.Exit.Evaluate.{
  tighten, stop_before, lock_pct, ratchet_cleared, trail, effective_stop, advance, decide, stop_hit,
  evaluate_exit, take_profit_stage, take_profit_hits, unrealized_return, loses_too_much,
  held_too_long, hit_tiers, highest, max_cleared, tighter, base_stop_price,
}

module _ (R : Real) where
  open R use {Num, le, le_refl, le_trans, le_total}

  -- `b` protects at least as well as `a`.
  abbrev pub tight : Side → Num → Num → Bool
  tight long a b = le a b
  tight short a b = le b a

  le_of_not : (a b : Num) → le a b ≡ false → le b a ≡ true
  le_of_not a b h = elim (le_total a b) [ inl p ↦ cc | inr q ↦ q ]

  pub tight_refl : (side : Side) (a : Num) → tight side a a ≡ true
  tight_refl long a = le_refl a
  tight_refl short a = le_refl a

  tight_trans :
      (side : Side) (a b c : Num)
      → tight side a b ≡ true
      → tight side b c ≡ true
      → tight side a c ≡ true
  tight_trans long a b c p q = le_trans a b c p q
  tight_trans short a b c p q = le_trans c b a q p

  tight-tighten : (side : Side) (a b : Num) → tight side a (tighten R side a b) ≡ true
  unfolding tighten
  tight-tighten long a b = elim (Bool-cases (le a b)) [ inl p ↦ rw p p | inr q ↦ rw q (le_refl a) ]
  tight-tighten short a b = elim (Bool-cases (le a b)) [
    | inl p ↦ rw p (le_refl a)
    | inr q ↦ rw q (le_of_not a b q)
  ]

  -- A stop that is hit stays hit when it is tightened.
  stop_hit-tight :
      (side : Side) (mark a b : Num)
      → tight side a b ≡ true
      → stop_hit R side mark a ≡ true
      → stop_hit R side mark b ≡ true
  stop_hit-tight long mark a b t h = le_trans mark a b h t
  stop_hit-tight short mark a b t h = le_trans b a mark t h

  -- a policy without a trailing stop, or whose trailing stop ratchets (the schema's default)
  abbrev pub Ratchets : Option (Trailing Num) → Type 0
  Ratchets none = Unit
  Ratchets (some t) = t.ratchet ≡ true

  tight-trail :
      (side : Side) (entry : Num) (t : Option (Trailing Num)) (high stop : Num)
      → Ratchets t
      → tight side stop (trail R side entry t high stop) ≡ true
  unfolding trail
  tight-trail side entry none high stop h = tight_refl side stop
  tight-trail side entry (some t) high stop h =
      elim (Bool-cases (le t.activate_at_pct (unrealized_return R side entry high))) [
        | inr asleep ↦ rw asleep (tight_refl side stop)
        | inl active ↦ rw active (rw h (tight-tighten side stop _))
      ]

  tight-ratchet_cleared :
      (side : Side) (entry : Num) (ladder : Option (List (TakeProfitTier Num))) (cleared : List ℕ)
      (stop : Num)
      → Always (λ s. tight side stop s ≡ true) (ratchet_cleared R side entry ladder cleared stop)
  unfolding ratchet_cleared
  tight-ratchet_cleared side entry none cleared stop = tight_refl side stop
  tight-ratchet_cleared side entry (some ladder) [] stop = tight_refl side stop
  tight-ratchet_cleared side entry (some ladder) (i ∷ is) stop =
      Always-map {A = Num} (λ _. Unit {0}) (λ s. tight side stop s ≡ true) _
        (lock_pct R ladder (max_cleared i is)) (λ pct _. tight-tighten side stop _)
        (Always-any (lock_pct R ladder (max_cleared i is)))

  -- the stop in force is at least as tight as the stored one
  tight-effective_stop :
      (view : PositionView Num) (mark : Num)
      → Ratchets view.policy.trailing
      → Always (λ s. tight view.side (stop_before R view) s ≡ true) (effective_stop R view mark)
  unfolding effective_stop
  tight-effective_stop view mark ratchets =
      let stop = stop_before R view in
      Always-map (λ s. tight view.side stop s ≡ true) (λ s. tight view.side stop s ≡ true) _
        (ratchet_cleared R view.side view.entry_price view.policy.take_profit
          view.runtime.cleared_tiers stop)
        (λ s t.
          tight_trans view.side stop s _ t
            (tight-trail view.side view.entry_price view.policy.trailing _ s ratchets))
        (tight-ratchet_cleared view.side view.entry_price view.policy.take_profit
          view.runtime.cleared_tiers stop)

  -- what a decision says of the stop that it leaves
  abbrev LeavesStop : Side → Num → ExitDecision Num → Type 0
  LeavesStop side stop d =
      (s : Num) × (d.next_runtime.current_stop_price ≡ some s) × (tight side stop s ≡ true)

  take_profit_stage-LeavesStop :
      (view : PositionView Num) (ladder : Option (List (TakeProfitTier Num)))
      (mark stop unrealized : Num) (rt : PositionRuntime Num)
      → rt.current_stop_price ≡ some stop
      → Always (LeavesStop view.side stop) (take_profit_stage R view ladder mark stop unrealized rt)
  unfolding take_profit_stage
  take_profit_stage-LeavesStop view none mark stop unrealized rt h =
      (stop, h, tight_refl view.side stop)
  take_profit_stage-LeavesStop view (some ladder) mark stop unrealized rt h =
      hits (hit_tiers R view.side view.entry_price mark rt.cleared_tiers 0 ladder)
    where
      hits :
          (xs : List (ℕ × TakeProfitTier Num))
          → Always
              (LeavesStop view.side stop)
              (take_profit_hits R view ladder xs stop unrealized rt)
      hits [] = (stop, h, tight_refl view.side stop)
      hits (x ∷ xs) =
          let (i, tier) = highest R x xs in
          Always-map (λ _. Unit {0}) (LeavesStop view.side stop) _ (lock_pct R ladder i)
            (λ pct _. (_, refl, tight-tighten view.side stop _)) (Always-any (lock_pct R ladder i))

  decide-LeavesStop :
      (view : PositionView Num) (mark : Num) (now : ℕ) (stop : Num) (rt : PositionRuntime Num)
      → rt.current_stop_price ≡ some stop
      → Always (LeavesStop view.side stop) (decide R view mark now stop rt)
  unfolding decide
  decide-LeavesStop view mark now stop rt h =
      let unrealized = unrealized_return R view.side view.entry_price mark in
      elim (Bool-cases (stop_hit R view.side mark stop)) [
        | inl hit ↦ rw hit (stop, h, tight_refl view.side stop)
        | inr clear ↦
            rw clear (elim (Bool-cases (loses_too_much R view.policy.max_loss_pct unrealized)) [
              | inl lost ↦ rw lost (stop, h, tight_refl view.side stop)
              | inr small ↦
                  rw small
                    (elim (Bool-cases
                      (held_too_long R view.policy.max_hold_seconds view.opened_at_ms now)) [
                        | inl late ↦ rw late (stop, h, tight_refl view.side stop)
                        | inr early ↦ rw early (
                            take_profit_stage-LeavesStop view view.policy.take_profit mark stop
                              unrealized rt h)
                      ])
            ])
      ]

  evaluate_exit-LeavesStop :
      (view : PositionView Num) (mark : Num) (now : ℕ)
      → Ratchets view.policy.trailing
      → Always (LeavesStop view.side (stop_before R view)) (evaluate_exit R view mark now)
  unfolding evaluate_exit
  evaluate_exit-LeavesStop view mark now ratchets =
      elim (Option-cases (effective_stop R view mark)) [
        | inl thrown ↦ rw (thrown, evaluate_exit) tt
        | inr (stop, e) ↦
            let t =
              Always-some _ (effective_stop R view mark) stop
                (tight-effective_stop view mark ratchets) e in
            rw (e, evaluate_exit)
              (Always-mono (LeavesStop view.side stop) (LeavesStop view.side (stop_before R view)) _
                (λ d (s, at, tighter).
                  (s, at, tight_trans view.side (stop_before R view) stop s t tighter))
                (decide-LeavesStop view mark now stop (advance R view mark stop) refl))
      ]

  -- Whatever the mark and the decision, the stop that is stored next protects at least as well as the
  -- one before: never lower for a long, never higher for a short. Condition: a trailing stop, if
  -- there is one, ratchets.
  pub stop_never_loosens :
      (view : PositionView Num) (mark : Num) (now : ℕ) (d : ExitDecision Num)
      → Ratchets view.policy.trailing
      → evaluate_exit R view mark now ≡ some d
      → (s : Num) × (d.next_runtime.current_stop_price ≡ some s)
        × (tight view.side (stop_before R view) s ≡ true)
  stop_never_loosens view mark now d ratchets e =
      Always-some (LeavesStop view.side (stop_before R view)) (evaluate_exit R view mark now) d
        (evaluate_exit-LeavesStop view mark now ratchets) e

  abbrev ClosesByStop : ExitDecision Num → Type 0
  ClosesByStop d =
      (d.action ≡ Action.close)
      × (d.fraction ≡ some R.one)
      × ((d.reason ≡ some ExitReason.stop_loss) ⊎ (d.reason ≡ some ExitReason.trailing_stop))

  decide-ClosesByStop :
      (view : PositionView Num) (mark : Num) (now : ℕ) (stop : Num) (rt : PositionRuntime Num)
      → stop_hit R view.side mark stop ≡ true
      → Always ClosesByStop (decide R view mark now stop rt)
  unfolding decide
  decide-ClosesByStop view mark now stop rt hit =
      let base = base_stop_price R view.side view.entry_price view.policy.stop_loss view.atr in
      rw hit (elim (Bool-cases (tighter R view.side stop base)) [
        | inl trailed ↦ rw trailed (refl, refl, inr refl)
        | inr plain ↦ rw plain (refl, refl, inl refl)
      ])

  -- A mark at or beyond the stored stop always closes the whole position, as a stop or as a trailing
  -- stop: nothing else that the policy holds takes precedence. Condition: a trailing stop, if there
  -- is one, ratchets.
  stored_stop_closes :
      (view : PositionView Num) (mark : Num) (now : ℕ) (d : ExitDecision Num)
      → Ratchets view.policy.trailing
      → stop_hit R view.side mark (stop_before R view) ≡ true
      → evaluate_exit R view mark now ≡ some d
      → (d.action ≡ Action.close)
        × (d.fraction ≡ some R.one)
        × ((d.reason ≡ some ExitReason.stop_loss) ⊎ (d.reason ≡ some ExitReason.trailing_stop))
  unfolding evaluate_exit
  stored_stop_closes view mark now d ratchets hit e =
      elim (Option-cases (effective_stop R view mark)) [
        | inl thrown ↦ cc (rw (thrown, evaluate_exit) at e)
        | inr (stop, es) ↦
            let t =
              Always-some _ (effective_stop R view mark) stop
                (tight-effective_stop view mark ratchets) es in
            let still = stop_hit-tight view.side mark (stop_before R view) stop t hit in
            Always-some ClosesByStop _ d
              (decide-ClosesByStop view mark now stop (advance R view mark stop) still)
              (rw (es, evaluate_exit) at e)
      ]

  decide-closes :
      (view : PositionView Num) (mark : Num) (now : ℕ) (stop : Num) (rt : PositionRuntime Num)
      → (loses_too_much R view.policy.max_loss_pct
            (unrealized_return R view.side view.entry_price mark)
          ≡ true)
        ⊎ (held_too_long R view.policy.max_hold_seconds view.opened_at_ms now ≡ true)
      → Always
          (λ d. (d.action ≡ Action.close) × (d.fraction ≡ some R.one))
          (decide R view mark now stop rt)
  unfolding decide
  decide-closes view mark now stop rt due =
      let unrealized = unrealized_return R view.side view.entry_price mark in
      elim (Bool-cases (stop_hit R view.side mark stop)) [
        | inl hit ↦ rw hit (refl, refl)
        | inr clear ↦
            rw clear (elim (Bool-cases (loses_too_much R view.policy.max_loss_pct unrealized)) [
              | inl lost ↦ rw lost (refl, refl)
              | inr small ↦ rw small (elim due [
                | inl lost ↦ absurd (false≢true (sym small ∙ lost))
                | inr late ↦ rw late (refl, refl)
              ])
            ])
      ]

  -- A loss at or beyond the hard cap, and a holding time at or beyond the limit, close the whole
  -- position at any mark, whatever the take-profit ladder says.
  protective_exit_closes :
      (view : PositionView Num) (mark : Num) (now : ℕ) (d : ExitDecision Num)
      → (loses_too_much R view.policy.max_loss_pct
            (unrealized_return R view.side view.entry_price mark)
          ≡ true)
        ⊎ (held_too_long R view.policy.max_hold_seconds view.opened_at_ms now ≡ true)
      → evaluate_exit R view mark now ≡ some d
      → (d.action ≡ Action.close) × (d.fraction ≡ some R.one)
  unfolding evaluate_exit
  protective_exit_closes view mark now d due e = elim (Option-cases (effective_stop R view mark)) [
    | inl thrown ↦ cc (rw (thrown, evaluate_exit) at e)
    | inr (stop, es) ↦
        Always-some (λ d. (d.action ≡ Action.close) × (d.fraction ≡ some R.one)) _ d
          (decide-closes view mark now stop (advance R view mark stop) due)
          (rw (es, evaluate_exit) at e)
  ]
