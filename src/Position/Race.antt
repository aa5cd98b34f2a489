-- ===== src/Position/Race.antt =====
-- What the interleaved ticks of positions/monitor.ts keep true: a position is closed by one tick at
-- a time, and for good.
use mathlib.Core.Option
use mathlib.Core.Path.{subst}
use mathlib.Core.Bool.{false≢true}
use arivion.Prelude.{
  ℕ, ◌+◌, ◌-◌, ◌≤◌, String, ◌≡◌, refl, sym, ap, ◌∙◌, false, Option, none, some, List, [], ◌∷◌, ◌++◌,
  str_eq, str_eq_refl, eq_iff, if◌then◌else◌, arith, Bool-cases, inl, inr,
}
use arivion.Position.Store.{
  IntentState, opened, closing, closed, PositionDb, put_row, mark_closed, release_claim,
  claim_for_closing,
}
use arivion.Position.Steps.{
  System, Step, opens, advances, logs, wins, loses, closes, releases, releases_late, let_go,
  holders, state_of,
}
use arivion.Position.States.{
  state_of-put_row, put_state, unclosing, state_of-update_runtime, won_claim, lost_claim,
  state_of-mark_closed, state_of-release_claim,
}

-- how many ticks may hold a position in this state
abbrev pub closings : Option IntentState → ℕ
closings none = 0
closings (some opened) = 0
closings (some closing) = 1
closings (some closed) = 0

holders-let_go :
    (id k : String) (held : List String)
    → str_eq k id ≡ false
    → holders id (let_go k held) ≡ holders id held
unfolding let_go
holders-let_go id k [] h = refl
holders-let_go id k (j ∷ js) h = elim (Bool-cases (str_eq j k)) [
  | inl same ↦ rw (same, (eq_iff j k).0 same, h) (omega arith)
  | inr other ↦ rw other (ap (λ n. (if str_eq j id then 1 else 0) + n) (holders-let_go id k js h))
]

holders-let_go_self :
    (id : String) (held : List String) → holders id (let_go id held) ≡ holders id held - 1
unfolding let_go
holders-let_go_self id [] = omega arith
holders-let_go_self id (j ∷ js) = elim (Bool-cases (str_eq j id)) [
  | inl same ↦ rw same (omega arith)
  | inr other ↦ rw (other, other) (omega (arith, holders-let_go_self id js))
]

held_closing : (s : Option IntentState) → 1 ≤ closings s → s ≡ some closing
held_closing none h = absurd (omega arith)
held_closing (some opened) h = absurd (omega arith)
held_closing (some closing) h = refl
held_closing (some closed) h = absurd (omega arith)

pub closings_le : (s : Option IntentState) → closings s ≤ 1
closings_le none = omega arith
closings_le (some opened) = omega arith
closings_le (some closing) = omega arith
closings_le (some closed) = omega arith

closed_none : (s : Option IntentState) → closings (Option.map (λ _. closed) s) ≡ 0
closed_none none = refl
closed_none (some s) = refl

unclosing_none : (s : Option IntentState) → closings (Option.map unclosing s) ≡ 0
unclosing_none none = refl
unclosing_none (some opened) = refl
unclosing_none (some closing) = refl
unclosing_none (some closed) = refl

other_key : (k id : String) → str_eq k id ≡ false → str_eq id k ≡ false
other_key k id h = elim (Bool-cases (str_eq id k)) [
  | inl same ↦ absurd (false≢true (sym h ∙ (eq_iff k id).1 (sym ((eq_iff id k).0 same))))
  | inr other ↦ other
]

module _ (N : Type 0) where
  -- every position is held by one tick if it is being closed, and by none if it is not
  unfoldable pub IsExclusive : System N → Type 0
  IsExclusive s = (id : String) → holders id s.held ≡ closings (state_of id s.db)

  -- a holder of `id` is gone, and the position is not being closed any more
  put_away :
      (id : String) (held : List String) (before after : PositionDb N) (s : Option IntentState)
      → IsExclusive (record { db = before; held = held })
      → ((k : String) → state_of k after ≡ put_state k id s before)
      → closings s ≡ 0
      → IsExclusive (record { db = after; held = let_go id held })
  unfolding IsExclusive
  put_away id held before after s inv e none_left k = elim (Bool-cases (str_eq k id)) [
    | inl same ↦
        rw (e k, same)
          (subst (λ j. holders j (let_go id held) ≡ closings s) (sym ((eq_iff k id).0 same))
            (holders-let_go_self id held ∙ let_go_one (inv id) none_left))
    | inr other ↦ rw (e k, other) (holders-let_go k id held (other_key k id other) ∙ inv k)
  ]
    where
      let_go_one :
          holders id held ≡ closings (state_of id before)
          → closings s ≡ 0
          → holders id held - 1 ≡ closings s
      let_go_one h z = omega (arith, closings_le (state_of id before))

  -- nothing changes for the holders
  put_like :
      (id : String) (held : List String) (before after : PositionDb N) (s : Option IntentState)
      → IsExclusive (record { db = before; held = held })
      → ((k : String) → state_of k after ≡ put_state k id s before)
      → closings s ≡ closings (state_of id before)
      → IsExclusive (record { db = after; held = held })
  unfolding IsExclusive
  put_like id held before after s inv e alike k = elim (Bool-cases (str_eq k id)) [
    | inl same ↦
        rw (e k, same)
          (subst (λ j. holders j held ≡ closings s) (sym ((eq_iff k id).0 same))
            (inv id ∙ sym alike))
    | inr other ↦ rw (e k, other) (inv k)
  ]

  -- a holder of `id` more, and the position is being closed
  hold_one :
      (id : String) (held : List String) (before after : PositionDb N)
      → IsExclusive (record { db = before; held = held })
      → state_of id before ≡ some opened
      → ((k : String) → state_of k after ≡ put_state k id (some closing) before)
      → IsExclusive (record { db = after; held = id ∷ held })
  unfolding IsExclusive
  hold_one id held before after inv was_open e k = elim (Bool-cases (str_eq k id)) [
    | inl same ↦
        rw (e k, same)
          (subst (λ j. holders j (id ∷ held) ≡ 1) (sym ((eq_iff k id).0 same))
            (rw (str_eq_refl id, inv id, was_open) (omega arith)))
    | inr other ↦ rw (e k, other, other_key k id other) (omega (arith, inv k))
  ]

  -- Every step of the ticks, in any interleaving, keeps it true that a position is held by one tick
  -- if it is being closed and by none if it is not.
  pub next-IsExclusive : (s t : System N) → Step N s t → IsExclusive s → IsExclusive t
  unfolding IsExclusive
  next-IsExclusive s t (opens id r db held new fresh) inv k =
      put_like id held db (record (put_row id r db) { ids = db.ids ++ id ∷ [] }) (some r.state) inv
        (λ k. state_of-put_row k id r db)
        (ap (λ s. closings (some s)) fresh ∙ sym (ap closings (ap (Option.map (λ r. r.state)) new)))
        k
  next-IsExclusive s t (advances id runtime mark db held) inv k =
      inv k ∙ ap closings (sym (state_of-update_runtime k id runtime mark db))
  next-IsExclusive s t (logs e db held) inv k = inv k
  next-IsExclusive s t (wins id db held won) inv k =
      let (was_open, now_closing) = won_claim id db won in
      hold_one id held db (claim_for_closing id db).1 inv was_open now_closing k
  next-IsExclusive s t (loses id db held lost) inv k =
      inv k ∙ ap (λ d. closings (state_of k d)) (sym (lost_claim id db lost))
  next-IsExclusive s t (closes id reason now mark ret run db held holds) inv k =
      put_away id held db (mark_closed now id reason mark ret run db) _ inv
        (λ k. state_of-mark_closed k id reason now mark ret run db) (closed_none (state_of id db)) k
  next-IsExclusive s t (releases id db held holds) inv k =
      put_away id held db (release_claim id db) _ inv (λ k. state_of-release_claim k id db)
        (unclosing_none (state_of id db)) k
  next-IsExclusive s t (releases_late id db held done) inv k =
      put_like id held db (release_claim id db) _ inv (λ k. state_of-release_claim k id db)
        (ap (λ s. closings (Option.map unclosing s)) done ∙ sym (ap closings done)) k
