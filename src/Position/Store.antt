-- ===== src/Position/Store.antt =====
-- positions/store.ts: the tables agent_position_intents and agent_position_events. A table is a row
-- for each id, with the ids in the order of insertion. Times are milliseconds since the epoch.
use arivion.Prelude.{
  ℕ, ◌+◌, ◌*◌, String, Bool, true, false, ◌&&◌, Option, none, some, List, [], ◌∷◌, ◌++◌, str_eq,
  ◌==◌, leb, if◌then◌else◌, take,
}
use mathlib.Core.Option
use arivion.Exit.Real.{Real}
use arivion.Exit.Policy.{ExitPolicy, PositionRuntime, Side}
use arivion.Exit.Evaluate.{init_runtime}

-- the column `state`; `opened` is the text "open"
pub data IntentState : Type 0 where
  opened closing closed : IntentState

-- `PositionIntent`, and the column `closed_at`
pub record PositionIntent (N : Type 0) : Type 0 where
  pub id : String
  pub owner_id : ℕ
  pub run_id : Option String
  pub session_id : Option String
  pub bot_id : Option String
  pub symbol : String
  pub category : String
  pub side : Side
  pub entry_price : N
  pub exit_policy : ExitPolicy N
  pub runtime : PositionRuntime N
  pub state : IntentState
  pub close_reason : Option String
  pub last_mark : Option N
  pub realized_return : Option N
  pub opened_at : ℕ
  pub time_exit_at : Option ℕ
  pub closed_at : Option ℕ

pub record OpenIntentInput (N : Type 0) : Type 0 where
  pub owner_id : ℕ
  pub run_id : Option String
  pub session_id : Option String
  pub bot_id : Option String
  pub symbol : String
  pub category : String
  pub side : Side
  pub entry_price : N
  pub policy : ExitPolicy N
  pub atr : Option N

-- an audit event, without its `detail`
pub record PositionEvent (N : Type 0) : Type 0 where
  pub intent_id : String
  pub owner_id : ℕ
  pub action : String
  pub reason : String
  pub mark : N
  pub fraction : Option N
  pub unrealized : Option N
  pub run_id : Option String

pub record PositionDb (N : Type 0) : Type 0 where
  pub ids : List String
  pub row : String → Option (PositionIntent N)
  pub events : List (PositionEvent N)

abbrev pub is_open : IntentState → Bool
is_open opened = true
is_open closing = false
is_open closed = false

abbrev pub is_closing : IntentState → Bool
is_closing opened = false
is_closing closing = true
is_closing closed = false

abbrev pub is_closed : IntentState → Bool
is_closed opened = false
is_closed closing = false
is_closed closed = true

-- a text that is missing or empty is falsy
abbrev pub filled : Option String → Option String
filled none = none
filled (some s) = if str_eq s "" then none else some s

-- `COALESCE(a, b)`
abbrev or_else : Option String → Option String → Option String
or_else (some a) b = some a
or_else none b = b

module _ {N : Type 0} where
  -- the row of an id becomes another, or its first
  abbrev pub put_row : String → PositionIntent N → PositionDb N → PositionDb N
  put_row id r db = record db { row = λ k. if str_eq k id then some r else db.row k }

  -- the selected rows, in the order of `ids`
  unfoldable rows_where :
      (PositionIntent N → Bool) → PositionDb N → List String → List (PositionIntent N)
  rows_where p db [] = []
  rows_where p db (id ∷ ids) =
      let rest = rows_where p db ids in
      elim (db.row id) [ none ↦ rest | some r ↦ if p r then r ∷ rest else rest ]

  -- `listOpenIntentsForSweep`; the sweep of all symbols reads 1000 rows at most
  unfoldable pub list_open_intents_for_sweep :
      Option String → PositionDb N → List (PositionIntent N)
  unfolding rows_where
  list_open_intents_for_sweep symbol db = elim (filled symbol) [
    | none ↦ take 1000 (rows_where (λ r. is_open r.state) db db.ids)
    | some s ↦ rows_where (λ r. is_open r.state && str_eq r.symbol s) db db.ids
  ]

  -- `getIntent`
  unfoldable get_intent : ℕ → String → PositionDb N → Option (PositionIntent N)
  get_intent owner id db = elim (db.row id) [
    | none ↦ none
    | some r ↦ if r.owner_id == owner then some r else none
  ]

  -- `updateRuntime`
  unfoldable pub update_runtime : String → PositionRuntime N → N → PositionDb N → PositionDb N
  update_runtime id runtime mark db = elim (db.row id) [
    | none ↦ db
    | some r ↦ put_row id (record r { runtime = runtime; last_mark = some mark }) db
  ]

  abbrev claim_row : String → PositionIntent N → PositionDb N → Bool × PositionDb N
  claim_row id r db =
      if is_open r.state then (true, put_row id (record r { state = closing }) db) else (false, db)

  -- `claimForClosing`; an id has one row at most, so `rowCount` is 1 where the row is open
  unfoldable pub claim_for_closing : String → PositionDb N → Bool × PositionDb N
  claim_for_closing id db = elim (db.row id) [ none ↦ (false, db) | some r ↦ claim_row id r db ]

  -- `markClosed`, at the time `now`
  unfoldable pub mark_closed :
      ℕ → String → String → N → N → Option String → PositionDb N → PositionDb N
  mark_closed now id reason mark realized_return run_id db = elim (db.row id) [
    | none ↦ db
    | some r ↦
        put_row id
          (record r {
            state = closed;
            close_reason = some reason;
            last_mark = some mark;
            realized_return = some realized_return;
            run_id = or_else run_id r.run_id;
            closed_at = some now;
          })
          db
  ]

  -- `releaseClaim`
  unfoldable pub release_claim : String → PositionDb N → PositionDb N
  release_claim id db = elim (db.row id) [
    | none ↦ db
    | some r ↦ if is_closing r.state then put_row id (record r { state = opened }) db else db
  ]

  -- `recordPositionEvent`
  abbrev pub record_position_event : PositionEvent N → PositionDb N → PositionDb N
  record_position_event e db = record db { events = db.events ++ e ∷ [] }

  -- what the risk state is computed from: the owner's closed rows that have a return
  abbrev is_realized : ℕ → PositionIntent N → Bool
  is_realized owner r =
      r.owner_id == owner
      && is_closed r.state
      && elim r.realized_return [ none ↦ false | some x ↦ true ]

  abbrev closed_time : PositionIntent N → ℕ
  closed_time r = elim r.closed_at [ none ↦ 0 | some t ↦ t ]

  -- ORDER BY closed_at DESC
  unfoldable insert_newest : PositionIntent N → List (PositionIntent N) → List (PositionIntent N)
  insert_newest r [] = r ∷ []
  insert_newest r (s ∷ ss) =
      let rest = insert_newest r ss in
      if leb (closed_time s) (closed_time r) then r ∷ s ∷ ss else s ∷ rest

  unfoldable newest_first : List (PositionIntent N) → List (PositionIntent N)
  unfolding insert_newest
  newest_first [] = []
  newest_first (r ∷ rs) = insert_newest r (newest_first rs)

  unfoldable returns_of : List (PositionIntent N) → List N
  returns_of [] = []
  returns_of (r ∷ rs) =
      let rest = returns_of rs in elim r.realized_return [ none ↦ rest | some x ↦ x ∷ rest ]

  -- `refreshRiskState`'s query, without its limit
  unfoldable pub closed_returns : ℕ → PositionDb N → List N
  unfolding rows_where newest_first returns_of
  closed_returns owner db = returns_of (newest_first (rows_where (is_realized owner) db db.ids))

module _ (R : Real) where
  open R use {Num}

  -- `openIntent`; the id is `pos_` and a fresh uuid
  unfoldable pub open_intent :
      String → ℕ → OpenIntentInput Num → PositionDb Num → PositionIntent Num × PositionDb Num
  unfolding init_runtime
  open_intent id now input db =
      let r : PositionIntent Num = record {
        id = id;
        owner_id = input.owner_id;
        run_id = input.run_id;
        session_id = input.session_id;
        bot_id = input.bot_id;
        symbol = input.symbol;
        category = input.category;
        side = input.side;
        entry_price = input.entry_price;
        exit_policy = input.policy;
        runtime = init_runtime R input.side input.entry_price input.policy input.atr;
        state = opened;
        close_reason = none;
        last_mark = some input.entry_price;
        realized_return = none;
        opened_at = now;
        time_exit_at = Option.map (λ s. now + s * 1000) input.policy.max_hold_seconds;
        closed_at = none;
      } in
      (r, record (put_row id r db) { ids = db.ids ++ id ∷ [] })
