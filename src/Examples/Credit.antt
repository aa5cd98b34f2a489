-- ===== src/Examples/Credit.antt =====
-- The theorems of the credit tables, at one owner's account.
use arivion.Prelude.{
  string_length, pos, ◌≡◌, ◌≤◌, ◌+◌, refl, none, some, List, [], ◌∷◌, arith, if◌then◌else◌, ◌==◌,
}
use arivion.Credit.Types.{managed, ChatMessage, Role, PriceRow, NormalizedUsage}
use arivion.Credit.Meter.{cost_for_usage, estimate_worst_case_cost, estimate_tokens_from_messages}
use arivion.Credit.Bounds.{worst_case_covers}
use arivion.Credit.Db.{
  AccountRow, AccountStatus, ReservationRow, Db, ok, empty_db, find_by_id, has_ledger_key,
}
use arivion.Credit.Ledger.{GrantConfig}
use arivion.Credit.Reservation.{ReserveArgs, new_reservation, mark_finalized, finalize, release}
use arivion.Credit.Request.{Call}
use arivion.Credit.Calls.{run_calls}
use arivion.Credit.Books.{credited, debited, balance, grants, on_hold, spend, run_calls_balanced}
use arivion.Credit.Settled.{settled_once}
use arivion.Credit.Effects.{finalize_effect}

abbrev grants_1000 : GrantConfig
grants_1000 = record { welcome_credit_micro_usd = 1000; show_owner = λ owner. "1" }

abbrev hold_100 : ReserveArgs
hold_100 = record {
  owner_id = 1;
  idempotency_key = "k";
  provider = "mock";
  model = "m";
  provider_mode = managed;
  reserved_micro_usd = pos 100;
}

abbrev hold_5000 : ReserveArgs
hold_5000 = record hold_100 { reserved_micro_usd = pos 5000 }

abbrev granted : AccountRow
granted = record {
  owner_id = 1;
  currency = "USD";
  managed_balance_micro_usd = 1000;
  lifetime_grants_micro_usd = 1000;
  lifetime_spend_micro_usd = 0;
  status = AccountStatus.active;
}

abbrev held : AccountRow
held = record granted { managed_balance_micro_usd = 900 }

abbrev open_hold : ReservationRow
open_hold = new_reservation "r" hold_100

abbrev closed_hold : ReservationRow
closed_hold = mark_finalized 30 open_hold

-- owner 1 alone has an account
abbrev granted_db : Db
granted_db = record empty_db { accounts = λ o. if o == 1 then some granted else none }

abbrev held_db : Db
held_db = record empty_db {
  accounts = λ o. if o == 1 then some held else none;
  reservations = open_hold ∷ [];
}

abbrev closed_db : Db
closed_db = record held_db { reservations = closed_hold ∷ [] }

abbrev session : List Call
session =
    Call.ensure_account 1
    ∷ Call.reserve "r" hold_100
    ∷ Call.finalize "r" (pos 30)
    ∷ Call.release "r" "again"
    ∷ []

run_calls_balanced_example :
    let db = run_calls grants_1000 session empty_db in
    (credited 1 db.ledger ≡ balance db 1 + debited 1 db.ledger)
    × (grants db 1 ≡ balance db 1 + on_hold 1 db.reservations + spend db 1)
    × (on_hold 1 db.reservations + spend db 1 ≤ grants db 1)
run_calls_balanced_example = run_calls_balanced grants_1000 session 1

settled_once_example :
    let db' = run_calls grants_1000 session closed_db in
    (find_by_id "r" db'.reservations ≡ some closed_hold)
    × (finalize "r" (pos 7) db' ≡ (ok tt, db'))
    × (release "r" "again" db' ≡ (ok tt, db'))
unfolding find_by_id
settled_once_example =
    settled_once "r" closed_hold refl grants_1000 session (pos 7) "again" closed_db refl

finalize_effect_example :
    let (result, db') = finalize "r" (pos 30) held_db in
    (result ≡ ok tt)
    × (db'.accounts 1
        ≡ some (record held { managed_balance_micro_usd = 970; lifetime_spend_micro_usd = 30 }))
    × (find_by_id "r" db'.reservations ≡ some closed_hold)
    × (db'.accounts 2 ≡ none)
unfolding find_by_id has_ledger_key
finalize_effect_example =
    finalize_effect "r" open_hold held held_db refl refl refl (pos 30) 2 (omega arith) refl refl

abbrev hello : List ChatMessage
hello = record { role = Role.user; content = "hello" } ∷ []

abbrev price : PriceRow
price = record {
  provider = "mock";
  model = "m";
  input_micro_usd_per_mtoken = 500_000;
  cached_input_micro_usd_per_mtoken = some 50_000;
  output_micro_usd_per_mtoken = 1_500_000;
  reasoning_micro_usd_per_mtoken = none;
}

abbrev used : NormalizedUsage
used = record {
  input_tokens = 4;
  cached_input_tokens = 1;
  output_tokens = 7;
  reasoning_tokens = 0;
  tool_call_count = 0;
}

worst_case_covers_example :
    (cost_for_usage used price).total_micro_usd
    ≤ (estimate_worst_case_cost hello 10 price).total_micro_usd + 1
unfolding estimate_tokens_from_messages string_length
worst_case_covers_example =
    worst_case_covers hello 10 used price (omega arith) (omega arith) (omega arith) refl
      (omega arith)
