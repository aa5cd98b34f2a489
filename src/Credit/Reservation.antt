-- ===== src/Credit/Reservation.antt =====
-- llm-gateway/reservation.ts: hold, settle and release. A hold leaves the balance before the provider
-- is called; `finalize` charges at most the hold and gives back the rest; `release` gives all back.
-- Amounts come in as integers: `Math.max(0, Math.ceil(x))` is then the positive part.
use arivion.Prelude.{
  ℕ, ◌+◌, ◌-◌, min, String, ℤ, pos, neg, pos_part, Bool, true, false, not, Option, none, some, ltb,
  leb, if◌then◌else◌,
}
use Prim.Native.String.{◌++◌}
use arivion.Credit.Types.{
  ProviderMode, no_credit_account, account_frozen, insufficient_credit, reservation_not_found,
}
use arivion.Credit.Db.{
  AccountRow, AccountStatus, active, frozen, ReservationRow, ReservationStatus, EventType, Db,
  LedgerRow, Result, Tx, pure, throw, require, ◌>>=◌, ◌>>◌, non_null, with_transaction,
  lock_account, update_account, insert_ledger, select_by_key, select_by_id, update_reservation,
  insert_reservation,
}

pub record ReserveArgs : Type 0 where
  pub owner_id : ℕ
  pub idempotency_key : String
  pub provider : String
  pub model : String
  pub provider_mode : ProviderMode
  pub reserved_micro_usd : ℤ

abbrev pub is_active : AccountStatus → Bool
is_active active = true
is_active frozen = false

abbrev pub is_reserved : ReservationStatus → Bool
is_reserved ReservationStatus.reserved = true
is_reserved ReservationStatus.finalized = false
is_reserved ReservationStatus.released = false

abbrev set_balance : ℕ → AccountRow → AccountRow
set_balance balance a = record a { managed_balance_micro_usd = balance }

-- the ledger row of one movement of reservation `r`
abbrev movement : ReservationRow → String → EventType → ℤ → ℕ → String → LedgerRow
movement r key event amount balance_after reason = record {
  id = 0;
  owner_id = r.owner_id;
  idempotency_key = key;
  event_type = event;
  amount_micro_usd = amount;
  balance_after_micro_usd = some balance_after;
  reservation_id = some r.id;
  reason = reason;
}

-- the rows of the four movements, with the balance that each leaves
abbrev pub hold_row : ReservationRow → ℕ → LedgerRow
hold_row r balance =
    movement r (r.idempotency_key ++ ":reserve") EventType.reserve (neg r.reserved_micro_usd)
      balance "RESERVE_HOLD"

abbrev pub release_row : ReservationRow → ℕ → LedgerRow
release_row r balance =
    movement r (r.id ++ ":release") EventType.reserve_release (pos r.reserved_micro_usd) balance
      "FINALIZE_RELEASE"

abbrev pub debit_row : ReservationRow → ℕ → ℕ → LedgerRow
debit_row r charge balance =
    movement r (r.id ++ ":debit") EventType.debit (neg charge) balance "ACTUAL_SPEND"

abbrev pub refund_row : ReservationRow → String → ℕ → LedgerRow
refund_row r reason balance =
    movement r (r.id ++ ":refund") EventType.refund (pos r.reserved_micro_usd) balance reason

-- The row that `reserve` inserts; `id` is ``res_${randomUUID()}``.
abbrev pub new_reservation : String → ReserveArgs → ReservationRow
new_reservation id args = record {
  id = id;
  owner_id = args.owner_id;
  idempotency_key = args.idempotency_key;
  reserved_micro_usd = pos_part args.reserved_micro_usd;
  finalized_micro_usd = none;
  status = ReservationStatus.reserved;
  provider = args.provider;
  model = args.model;
  provider_mode = args.provider_mode;
}

-- What `reserve` does once no reservation has the key.
unfoldable pub hold : ReservationRow → AccountRow → Tx ReservationRow
hold r account = do
  require (not (ltb account.managed_balance_micro_usd r.reserved_micro_usd)) insufficient_credit
  insert_reservation r
  let new_balance = account.managed_balance_micro_usd - r.reserved_micro_usd
  update_account r.owner_id (set_balance new_balance)
  insert_ledger (hold_row r new_balance)
  pure r

-- `if (existing.rowCount) return …`
unfoldable pub hold_once : ReservationRow → AccountRow → Option ReservationRow → Tx ReservationRow
unfolding hold
hold_once r account (some existing) = pure existing
hold_once r account none = hold r account

unfoldable pub reserve_locked : ReservationRow → Option AccountRow → Tx ReservationRow
unfolding hold_once
reserve_locked r none = throw no_credit_account
reserve_locked r (some account) = do
  require (is_active account.status) account_frozen
  hold_once r account (← select_by_key r.owner_id r.idempotency_key)

unfoldable pub reserve_tx : String → ReserveArgs → Tx ReservationRow
unfolding reserve_locked
reserve_tx id args = do reserve_locked (new_reservation id args) (← lock_account args.owner_id)

unfoldable pub reserve : String → ReserveArgs → Db → Result ReservationRow × Db
unfolding reserve_tx
reserve id args = with_transaction (reserve_tx id args)

-- `if (charge > 0) …`: the row of the actual spend
unfoldable pub insert_debit : ReservationRow → ℕ → ℕ → Tx (Unit {0})
insert_debit r charge balance =
    if leb charge 0 then pure tt else insert_ledger (debit_row r charge balance)

abbrev pub mark_finalized : ℕ → ReservationRow → ReservationRow
mark_finalized charge row = record row {
  status = ReservationStatus.finalized;
  finalized_micro_usd = some charge;
}

unfoldable pub settle : ReservationRow → ℕ → AccountRow → Tx (Unit {0})
unfolding insert_debit
settle r charge account = do
  let released = account.managed_balance_micro_usd + r.reserved_micro_usd
  insert_ledger (release_row r released)
  let balance = released - charge
  insert_debit r charge balance
  update_account r.owner_id (λ a. record a {
    managed_balance_micro_usd = balance;
    lifetime_spend_micro_usd = a.lifetime_spend_micro_usd + charge;
  })
  update_reservation r.id (mark_finalized charge)

unfoldable pub finalize_found : ℤ → Option ReservationRow → Tx (Unit {0})
unfolding settle
finalize_found actual none = throw reservation_not_found
finalize_found actual (some r) = if not (is_reserved r.status) then pure tt else do
  account ← non_null (← lock_account r.owner_id)
  settle r (min (pos_part actual) r.reserved_micro_usd) account

unfoldable pub finalize_tx : String → ℤ → Tx (Unit {0})
unfolding finalize_found
finalize_tx id actual = do finalize_found actual (← select_by_id id)

unfoldable pub finalize : String → ℤ → Db → Result (Unit {0}) × Db
unfolding finalize_tx
finalize id actual = with_transaction (finalize_tx id actual)

abbrev pub mark_released : ReservationRow → ReservationRow
mark_released row = record row { status = ReservationStatus.released; finalized_micro_usd = some 0 }

unfoldable pub give_back : ReservationRow → String → AccountRow → Tx (Unit {0})
give_back r reason account = do
  let balance = account.managed_balance_micro_usd + r.reserved_micro_usd
  update_account r.owner_id (set_balance balance)
  insert_ledger (refund_row r reason balance)
  update_reservation r.id mark_released

unfoldable pub release_found : String → Option ReservationRow → Tx (Unit {0})
unfolding give_back
release_found reason none = pure tt
release_found reason (some r) =
    if not (is_reserved r.status)
    then pure tt
    else do account ← non_null (← lock_account r.owner_id); give_back r reason account

unfoldable pub release_tx : String → String → Tx (Unit {0})
unfolding release_found
release_tx id reason = do release_found reason (← select_by_id id)

unfoldable pub release : String → String → Db → Result (Unit {0}) × Db
unfolding release_tx
release id reason = with_transaction (release_tx id reason)
