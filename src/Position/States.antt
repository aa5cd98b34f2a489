-- ===== src/Position/States.antt =====
-- What the operations of positions/store.ts do to the state of each row.
use mathlib.Core.Option
use mathlib.Core.Bool.{false≢true}
use arivion.Prelude.{
  ℕ, String, ◌≡◌, refl, sym, ap, ◌∙◌, true, false, Option, none, some, str_eq, str_eq_refl, eq_iff,
  if◌then◌else◌, Bool-cases, Option-cases, inl, inr,
}
use arivion.Exit.Policy.{PositionRuntime}
use arivion.Position.Store.{
  IntentState, opened, closing, closed, is_closing, is_open, PositionIntent, PositionDb, put_row,
  claim_for_closing, mark_closed, release_claim, update_runtime,
}
use arivion.Position.Steps.{state_of}

opened_of : (s : IntentState) → is_open s ≡ true → s ≡ opened
opened_of opened h = refl
opened_of closing h = cc
opened_of closed h = cc

-- what a release makes of a state
abbrev pub unclosing : IntentState → IntentState
unclosing opened = opened
unclosing closing = opened
unclosing closed = closed

unclosing_of : (s : IntentState) → is_closing s ≡ true → unclosing s ≡ opened
unclosing_of opened h = cc
unclosing_of closing h = refl
unclosing_of closed h = cc

unclosing_same : (s : IntentState) → is_closing s ≡ false → unclosing s ≡ s
unclosing_same opened h = refl
unclosing_same closing h = cc
unclosing_same closed h = refl

module _ {N : Type 0} where
  abbrev pub put_state : String → String → Option IntentState → PositionDb N → Option IntentState
  put_state k id s db = if str_eq k id then s else state_of k db

  pub state_of-put_row :
      (k id : String) (r : PositionIntent N) (db : PositionDb N)
      → state_of k (put_row id r db) ≡ put_state k id (some r.state) db
  state_of-put_row k id r db = elim (Bool-cases (str_eq k id)) [
    | inl same ↦ rw same refl
    | inr other ↦ rw other refl
  ]

  pub put_state_self :
      (id : String) (s : Option IntentState) (db : PositionDb N) → put_state id id s db ≡ s
  put_state_self id s db = rw (str_eq_refl id) refl

  -- to put back the state that is there
  put_state-same :
      (k id : String) (s : Option IntentState) (db : PositionDb N)
      → state_of id db ≡ s
      → put_state k id s db ≡ state_of k db
  put_state-same k id s db e = elim (Bool-cases (str_eq k id)) [
    | inl same ↦ rw same (sym e ∙ ap (λ j. state_of j db) (sym ((eq_iff k id).0 same)))
    | inr other ↦ rw other refl
  ]

  state_at :
      (id : String) (r : PositionIntent N) (db : PositionDb N)
      → db.row id ≡ some r
      → state_of id db ≡ some r.state
  state_at id r db at = ap (Option.map (λ r. r.state)) at

  pub state_of-update_runtime :
      (k id : String) (runtime : PositionRuntime N) (mark : N) (db : PositionDb N)
      → state_of k (update_runtime id runtime mark db) ≡ state_of k db
  unfolding update_runtime
  state_of-update_runtime k id runtime mark db = elim (Option-cases (db.row id)) [
    | inl absent ↦ rw (absent, update_runtime) refl
    | inr (r, at) ↦
        rw (at, update_runtime)
          (state_of-put_row k id (record r { runtime = runtime; last_mark = some mark }) db
            ∙ put_state-same k id (some r.state) db (state_at id r db at))
  ]

  -- a claim that is won: the position was open, and is being closed
  pub won_claim :
      (id : String) (db : PositionDb N)
      → (claim_for_closing id db).0 ≡ true
      → (state_of id db ≡ some opened)
        × ((k : String) → state_of k (claim_for_closing id db).1 ≡ put_state k id (some closing) db)
  unfolding claim_for_closing
  won_claim id db = elim (Option-cases (db.row id)) [
    | inl absent ↦ rw (absent, claim_for_closing) (λ h. absurd (false≢true h))
    | inr (r, at) ↦ elim (Bool-cases (is_open r.state)) [
      | inl e ↦
          rw (at, claim_for_closing, e)
            (λ h. (
              ap some (opened_of r.state e),
              λ k. state_of-put_row k id (record r { state = closing }) db,
            ))
      | inr e ↦ rw (at, claim_for_closing, e) (λ h. absurd (false≢true h))
    ]
  ]

  pub lost_claim :
      (id : String) (db : PositionDb N)
      → (claim_for_closing id db).0 ≡ false
      → (claim_for_closing id db).1 ≡ db
  unfolding claim_for_closing
  lost_claim id db = elim (Option-cases (db.row id)) [
    | inl absent ↦ rw (absent, claim_for_closing) (λ h. refl)
    | inr (r, at) ↦ elim (Bool-cases (is_open r.state)) [
      | inl e ↦ rw (at, claim_for_closing, e) (λ h. cc)
      | inr e ↦ rw (at, claim_for_closing, e) (λ h. refl)
    ]
  ]

  pub state_of-mark_closed :
      (k id reason : String) (now : ℕ) (mark ret : N) (run : Option String) (db : PositionDb N)
      → state_of k (mark_closed now id reason mark ret run db)
        ≡ put_state k id (Option.map (λ _. closed) (state_of id db)) db
  unfolding mark_closed
  state_of-mark_closed k id reason now mark ret run db = elim (Option-cases (db.row id)) [
    | inl absent ↦
        rw (absent, mark_closed)
          (sym (put_state-same k id none db (ap (Option.map (λ r. r.state)) absent)))
    | inr (r, at) ↦ rw (at, mark_closed) (state_of-put_row k id _ db)
  ]

  pub state_of-release_claim :
      (k id : String) (db : PositionDb N)
      → state_of k (release_claim id db) ≡ put_state k id (Option.map unclosing (state_of id db)) db
  unfolding release_claim
  state_of-release_claim k id db = elim (Option-cases (db.row id)) [
    | inl absent ↦
        rw (absent, release_claim)
          (sym (put_state-same k id none db (ap (Option.map (λ r. r.state)) absent)))
    | inr (r, at) ↦ elim (Bool-cases (is_closing r.state)) [
      | inl e ↦
          rw (at, release_claim, e)
            (state_of-put_row k id (record r { state = opened }) db
              ∙ ap (λ s. put_state k id (some s) db) (sym (unclosing_of r.state e)))
      | inr e ↦
          rw (at, release_claim, e)
            (sym (
              put_state-same k id _ db
                (state_at id r db at ∙ ap some (sym (unclosing_same r.state e)))))
    ]
  ]
