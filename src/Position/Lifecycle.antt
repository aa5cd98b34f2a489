-- ===== src/Position/Lifecycle.antt =====
-- The life of a managed position, and how the monitor's interleaved ticks (positions/monitor.ts,
-- positions/store.ts) implement it.
use mathlib.Core.Option
use mathlib.Core.Path.{subst}
use arivion.Prelude.{
  ◌≤◌, String, ◌≡◌, refl, sym, ap, ◌∙◌, Option, none, some, [], ◌∷◌, ◌++◌, str_eq, eq_iff, arith,
  Bool-cases, inl, inr,
}
use arivion.Position.Store.{
  IntentState, opened, closing, closed, PositionDb, put_row, mark_closed, release_claim,
  claim_for_closing, update_runtime,
}
use arivion.Position.Steps.{
  System, Step, opens, advances, logs, wins, loses, closes, releases, releases_late, Steps, stop,
  step, holders, state_of,
}
use arivion.Position.States.{
  put_state, unclosing, state_of-put_row, state_of-update_runtime, won_claim, lost_claim,
  state_of-mark_closed, state_of-release_claim,
}
use arivion.Position.Race.{closings, closings_le, IsExclusive, next-IsExclusive}

-- the life of a position: it is opened, claimed, and closed or given back
pub data Life : Option IntentState → Option IntentState → Type 0 where
  stays : (s : Option IntentState) → Life s s
  begins : Life none (some opened)
  is_claimed : Life (some opened) (some closing)
  is_closed : Life (some closing) (some closed)
  is_given_back : Life (some closing) (some opened)

held_closing : (s : Option IntentState) → 1 ≤ closings s → s ≡ some closing
held_closing none h = absurd (omega arith)
held_closing (some opened) h = absurd (omega arith)
held_closing (some closing) h = refl
held_closing (some closed) h = absurd (omega arith)

closed_stays : (s t : Option IntentState) → Life s t → s ≡ some closed → t ≡ some closed
closed_stays s t (stays u) e = e
closed_stays s t begins e = cc
closed_stays s t is_claimed e = cc
closed_stays s t is_closed e = refl
closed_stays s t is_given_back e = cc

module _ (N : Type 0) where
  life_put :
      (id : String) (before after : PositionDb N) (s t : Option IntentState)
      → state_of id before ≡ s
      → Life s t
      → ((k : String) → state_of k after ≡ put_state k id t before)
      → (k : String) → Life (state_of k before) (state_of k after)
  life_put id before after s t was life e k = elim (Bool-cases (str_eq k id)) [
    | inl same ↦
        rw (e k, same)
          (subst (λ j. Life (state_of j before) t) (sym ((eq_iff k id).0 same))
            (subst (λ s. Life s t) (sym was) life))
    | inr other ↦ rw (e k, other) (stays (state_of k before))
  ]

  life_same :
      (before after : PositionDb N) (k : String)
      → state_of k after ≡ state_of k before
      → Life (state_of k before) (state_of k after)
  life_same before after k e = subst (Life (state_of k before)) (sym e) (stays (state_of k before))

  -- The interleaved ticks implement the life of a position: whatever step is taken, each position
  -- stays as it is, or is opened, claimed, closed or given back as its life allows.
  pub step_refines :
      (s t : System N) (k : String)
      → IsExclusive N s
      → Step N s t
      → Life (state_of k s.db) (state_of k t.db)
  unfolding IsExclusive
  step_refines s t k inv (opens id r db held new fresh) =
      life_put id db (record (put_row id r db) { ids = db.ids ++ id ∷ [] }) none (some r.state)
        (ap (Option.map (λ r. r.state)) new) (subst (λ s. Life none (some s)) (sym fresh) begins)
        (λ k. state_of-put_row k id r db) k
  step_refines s t k inv (advances id runtime mark db held) =
      life_same db (update_runtime id runtime mark db) k
        (state_of-update_runtime k id runtime mark db)
  step_refines s t k inv (logs e db held) = stays (state_of k db)
  step_refines s t k inv (wins id db held won) =
      let (was_open, now_closing) = won_claim id db won in
      life_put id db (claim_for_closing id db).1 (some opened) (some closing) was_open is_claimed
        now_closing k
  step_refines s t k inv (loses id db held lost) =
      life_same db (claim_for_closing id db).1 k (ap (state_of k) (lost_claim id db lost))
  step_refines s t k inv (closes id reason now mark ret run db held holds) =
      let was = held_closing (state_of id db) (subst (λ n. 1 ≤ n) (inv id) holds) in
      life_put id db (mark_closed now id reason mark ret run db) (some closing) (some closed) was
        is_closed
        (λ k.
          state_of-mark_closed k id reason now mark ret run db
          ∙ ap (λ s. put_state k id (Option.map (λ _. closed) s) db) was)
        k
  step_refines s t k inv (releases id db held holds) =
      let was = held_closing (state_of id db) (subst (λ n. 1 ≤ n) (inv id) holds) in
      life_put id db (release_claim id db) (some closing) (some opened) was is_given_back
        (λ k.
          state_of-release_claim k id db ∙ ap (λ s. put_state k id (Option.map unclosing s) db) was)
        k
  step_refines s t k inv (releases_late id db held done) =
      life_put id db (release_claim id db) (some closed) (some closed) done (stays (some closed))
        (λ k.
          state_of-release_claim k id db
          ∙ ap (λ s. put_state k id (Option.map unclosing s) db) done)
        k

  pub later-IsExclusive : (s t : System N) → Steps N s t → IsExclusive N s → IsExclusive N t
  later-IsExclusive s t (stop r) inv = inv
  later-IsExclusive s t (step r u v one more) inv =
      later-IsExclusive u t more (next-IsExclusive N s u one inv)

  -- However the ticks interleave, two of them are never closing the same position at once.
  pub one_exit_at_a_time :
      (s t : System N) (id : String) → IsExclusive N s → Steps N s t → holders id t.held ≤ 1
  unfolding IsExclusive
  one_exit_at_a_time s t id inv run =
      omega (arith, later-IsExclusive s t run inv id, closings_le (state_of id t.db))

  -- However the ticks interleave, a closed position stays closed: no late release opens it again.
  pub closed_for_good :
      (s t : System N) (id : String)
      → IsExclusive N s
      → Steps N s t
      → state_of id s.db ≡ some closed
      → state_of id t.db ≡ some closed
  closed_for_good s t id inv (stop r) e = e
  closed_for_good s t id inv (step r u v one more) e =
      closed_for_good u t id (next-IsExclusive N s u one inv) more
        (closed_stays (state_of id s.db) (state_of id u.db) (step_refines s u id inv one) e)
