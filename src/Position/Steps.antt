-- ===== src/Position/Steps.antt =====
-- The monitor's ticks (positions/monitor.ts) as steps on the table that interleave in any order. A
-- tick that has won `claimForClosing` holds a claim on its position until it has closed the position or given the claim back.
use arivion.Prelude.{
  ℕ, ◌≤◌, String, ◌≡◌, true, false, Option, none, some, List, [], ◌∷◌, ◌++◌, count, str_eq,
  if◌then◌else◌,
}
use mathlib.Core.Option
use arivion.Exit.Policy.{PositionRuntime}
use arivion.Position.Store.{
  IntentState, opened, closed, PositionIntent, PositionEvent, PositionDb, put_row,
  claim_for_closing, mark_closed, record_position_event, release_claim, update_runtime,
}

-- one holder less
unfoldable pub let_go : String → List String → List String
let_go id [] = []
let_go id (k ∷ ks) = let rest = let_go id ks in if str_eq k id then ks else k ∷ rest

abbrev pub holders : String → List String → ℕ
holders id held = count (λ k. str_eq k id) held

abbrev pub state_of : {N : Type 0} → String → PositionDb N → Option IntentState
state_of id db = Option.map (λ r. r.state) (db.row id)

module _ (N : Type 0) where
  -- the table, and the ids of the positions that ticks hold
  pub record System : Type 0 where
    pub db : PositionDb N
    pub held : List String

  -- the steps that the ticks take, each with the store's own operation
  pub data Step : System → System → Type 0 where
    -- `openIntent`, whose id is new
    opens :
        (id : String) (r : PositionIntent N) (db : PositionDb N) (held : List String)
        → db.row id ≡ none
        → r.state ≡ opened
        → Step
            (record { db = db; held = held })
            (record { db = record (put_row id r db) { ids = db.ids ++ id ∷ [] }; held = held })
    advances :
        (id : String) (runtime : PositionRuntime N) (mark : N) (db : PositionDb N)
        (held : List String)
        → Step
            (record { db = db; held = held })
            (record { db = update_runtime id runtime mark db; held = held })
    logs :
        (e : PositionEvent N) (db : PositionDb N) (held : List String)
        → Step
            (record { db = db; held = held })
            (record { db = record_position_event e db; held = held })
    wins :
        (id : String) (db : PositionDb N) (held : List String)
        → (claim_for_closing id db).0 ≡ true
        → Step
            (record { db = db; held = held })
            (record { db = (claim_for_closing id db).1; held = id ∷ held })
    loses :
        (id : String) (db : PositionDb N) (held : List String)
        → (claim_for_closing id db).0 ≡ false
        → Step
            (record { db = db; held = held })
            (record { db = (claim_for_closing id db).1; held = held })
    closes :
        (id reason : String) (now : ℕ) (mark ret : N) (run : Option String) (db : PositionDb N)
        (held : List String)
        → 1 ≤ holders id held
        → Step
            (record { db = db; held = held })
            (record { db = mark_closed now id reason mark ret run db; held = let_go id held })
    releases :
        (id : String) (db : PositionDb N) (held : List String)
        → 1 ≤ holders id held
        → Step
            (record { db = db; held = held })
            (record { db = release_claim id db; held = let_go id held })
    -- the release in the `catch`, after the position was closed
    releases_late :
        (id : String) (db : PositionDb N) (held : List String)
        → state_of id db ≡ some closed
        → Step (record { db = db; held = held }) (record { db = release_claim id db; held = held })

  pub data Steps : System → System → Type 0 where
    stop : (s : System) → Steps s s
    step : (s t u : System) → Step s t → Steps t u → Steps s u
