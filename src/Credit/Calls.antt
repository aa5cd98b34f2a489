-- ===== src/Credit/Calls.antt =====
-- A history of calls. Each is a transaction that locks the account row, so concurrent calls for one
-- owner happen one after the other, and a history is a list.
use arivion.Prelude.{List, [], ◌∷◌}
use arivion.Credit.Db.{Db}
use arivion.Credit.Ledger.{GrantConfig, ensure_account, record_grant}
use arivion.Credit.Reservation.{reserve, finalize, release}
use arivion.Credit.Request.{Call}

-- What a call leaves behind, whether it returns or throws.
unfoldable pub run_call : GrantConfig → Call → Db → Db
unfolding ensure_account record_grant reserve finalize release
run_call config (Call.ensure_account owner) db = (ensure_account config owner db).1
run_call config (Call.record_grant owner amount reason key) db =
    (record_grant config owner amount reason key db).1
run_call config (Call.reserve id args) db = (reserve id args db).1
run_call config (Call.finalize id actual) db = (finalize id actual db).1
run_call config (Call.release id reason) db = (release id reason db).1

unfoldable pub run_calls : GrantConfig → List Call → Db → Db
run_calls config [] db = db
run_calls config (c ∷ cs) db = run_calls config cs (run_call config c db)
