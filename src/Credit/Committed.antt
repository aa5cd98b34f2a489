-- ===== src/Credit/Committed.antt =====
-- Every call of llm-gateway/creditLedger.ts and llm-gateway/reservation.ts is made of moves.
use arivion.Prelude.{ℕ, String, ℤ, pos_part, List, [], ◌∷◌, leb, inl, inr, Bool-cases}
use arivion.Credit.Db.{AccountRow, Db, Result, ok, err, Ensures, commit, with_transaction, and_then}
use arivion.Credit.Ledger.{GrantConfig, ensure_account_tx, ensure_account, grant_tx, record_grant}
use arivion.Credit.Reservation.{
  ReserveArgs, reserve_tx, reserve, finalize_tx, finalize, release_tx, release,
}
use arivion.Credit.Request.{Call}
use arivion.Credit.Calls.{run_call, run_calls}
use arivion.Credit.Moves.{Moves, here, Moves-trans}
use arivion.Credit.Refine.{
  ensure_account_tx-Moves, finalize_tx-Moves, grant_tx-Moves, release_tx-Moves, reserve_tx-Moves,
}

commit-Moves :
    {A : Type 0} (r : Result (A × Db)) (db : Db)
    → Ensures (λ _. Moves db) r
    → Moves db (commit r db).1
commit-Moves (ok (a, db')) db h = h
commit-Moves (err e) db h = here

pub ensure_account-Moves :
    (config : GrantConfig) (owner : ℕ) (db : Db) → Moves db (ensure_account config owner db).1
unfolding ensure_account
ensure_account-Moves config owner db =
    commit-Moves (ensure_account_tx config owner db) db (ensure_account_tx-Moves config owner db)

pub reserve-Moves : (id : String) (args : ReserveArgs) (db : Db) → Moves db (reserve id args db).1
unfolding reserve
reserve-Moves id args db = commit-Moves (reserve_tx id args db) db (reserve_tx-Moves id args db)

pub finalize-Moves : (id : String) (actual : ℤ) (db : Db) → Moves db (finalize id actual db).1
unfolding finalize
finalize-Moves id actual db =
    commit-Moves (finalize_tx id actual db) db (finalize_tx-Moves id actual db)

pub release-Moves : (id reason : String) (db : Db) → Moves db (release id reason db).1
unfolding release
release-Moves id reason db =
    commit-Moves (release_tx id reason db) db (release_tx-Moves id reason db)

-- The grant follows `ensureAccount` only if that returned.
after_ensure-Moves :
    (owner amount : ℕ) (reason key : String) (r : Result AccountRow × Db)
    → Moves r.1 (and_then r (λ _. with_transaction (grant_tx owner amount reason key))).1
after_ensure-Moves owner amount reason key (ok _, db) =
    commit-Moves (grant_tx owner amount reason key db) db
      (grant_tx-Moves owner amount reason key db)
after_ensure-Moves owner amount reason key (err e, db) = here

record_grant-Moves :
    (config : GrantConfig) (owner : ℕ) (amount : ℤ) (reason key : String) (db : Db)
    → Moves db (record_grant config owner amount reason key db).1
unfolding record_grant
record_grant-Moves config owner amount reason key db = elim (Bool-cases (leb (pos_part amount) 0)) [
  | inl bad ↦ rw bad here
  | inr good ↦ rw good (
      Moves-trans (ensure_account-Moves config owner db)
        (after_ensure-Moves owner (pos_part amount) reason key (ensure_account config owner db)))
]

-- Whether a call returns or throws, what it leaves behind is reached by moves.
run_call-Moves : (config : GrantConfig) (c : Call) (db : Db) → Moves db (run_call config c db)
unfolding run_call
run_call-Moves config (Call.ensure_account owner) db = ensure_account-Moves config owner db
run_call-Moves config (Call.record_grant owner amount reason key) db =
    record_grant-Moves config owner amount reason key db
run_call-Moves config (Call.reserve id args) db = reserve-Moves id args db
run_call-Moves config (Call.finalize id actual) db = finalize-Moves id actual db
run_call-Moves config (Call.release id reason) db = release-Moves id reason db

pub run_calls-Moves :
    (config : GrantConfig) (cs : List Call) (db : Db) → Moves db (run_calls config cs db)
unfolding run_calls
run_calls-Moves config [] db = here
run_calls-Moves config (c ∷ cs) db =
    Moves-trans (run_call-Moves config c db) (run_calls-Moves config cs (run_call config c db))
