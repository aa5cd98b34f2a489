-- ===== src/Credit/Moves.antt =====
-- The moves of managed credit: what a transaction does to the tables once its guards have passed.
-- `Moves/Calls.antt` shows that every call is made of these.
use arivion.Prelude.{ℕ, ◌+◌, ◌-◌, ◌≤◌, String, ◌≡◌, true, none, some, ◌∷◌, leb, if◌then◌else◌}
use arivion.Credit.Db.{
  AccountRow, ReservationRow, ReservationStatus, Db, find_by_id, find_by_key, update_by_id,
  put_account, new_account, push_ledger, set_balance_after,
}
use arivion.Credit.Ledger.{grant_row}
use arivion.Credit.Reservation.{
  is_reserved, mark_released, mark_finalized, hold_row, release_row, debit_row, refund_row,
}

abbrev pub granted_db : ℕ → String → ℕ → String → AccountRow → Db → Db
granted_db owner key amount reason a db =
    let posted = push_ledger (grant_row owner key amount reason) db in
    let balance = a.managed_balance_micro_usd + amount in
    record (put_account owner
      (record a {
        managed_balance_micro_usd = balance;
        lifetime_grants_micro_usd = a.lifetime_grants_micro_usd + amount;
      })
      posted) { ledger = set_balance_after db.next_ledger_id balance posted.ledger }

abbrev pub held_db : ReservationRow → AccountRow → Db → Db
held_db r a db =
    let balance = a.managed_balance_micro_usd - r.reserved_micro_usd in
    push_ledger (hold_row r balance) (
      put_account r.owner_id (record a { managed_balance_micro_usd = balance })
        (record db { reservations = r ∷ db.reservations }))

abbrev debited_db : ReservationRow → ℕ → ℕ → Db → Db
debited_db r charge balance db =
    if leb charge 0 then db else push_ledger (debit_row r charge balance) db

abbrev pub settled_db : ReservationRow → ℕ → AccountRow → Db → Db
settled_db r charge a db =
    let released = a.managed_balance_micro_usd + r.reserved_micro_usd in
    let balance = released - charge in
    let paid = debited_db r charge balance (push_ledger (release_row r released) db) in
    record (put_account r.owner_id
      (record a {
        managed_balance_micro_usd = balance;
        lifetime_spend_micro_usd = a.lifetime_spend_micro_usd + charge;
      })
      paid) { reservations = update_by_id r.id (mark_finalized charge) db.reservations }

abbrev pub returned_db : ReservationRow → String → AccountRow → Db → Db
returned_db r reason a db =
    let balance = a.managed_balance_micro_usd + r.reserved_micro_usd in
    let refunded =
      push_ledger (refund_row r reason balance)
        (put_account r.owner_id (record a { managed_balance_micro_usd = balance }) db) in
    record refunded { reservations = update_by_id r.id mark_released db.reservations }

pub data Move (db : Db) : Db → Type 0 where
  opened :
      (owner : ℕ) → db.accounts owner ≡ none → Move db (put_account owner (new_account owner) db)
  granted :
      (owner : ℕ) (key : String) (amount : ℕ) (reason : String) (a : AccountRow)
      → db.accounts owner ≡ some a
      → Move db (granted_db owner key amount reason a db)
  held :
      (r : ReservationRow) (a : AccountRow)
      → db.accounts r.owner_id ≡ some a
      → r.status ≡ ReservationStatus.reserved
      → r.reserved_micro_usd ≤ a.managed_balance_micro_usd
      → find_by_id r.id db.reservations ≡ none
      → find_by_key r.owner_id r.idempotency_key db.reservations ≡ none
      → Move db (held_db r a db)
  settled :
      (r : ReservationRow) (charge : ℕ) (a : AccountRow)
      → db.accounts r.owner_id ≡ some a
      → find_by_id r.id db.reservations ≡ some r
      → is_reserved r.status ≡ true
      → charge ≤ r.reserved_micro_usd
      → Move db (settled_db r charge a db)
  returned :
      (r : ReservationRow) (reason : String) (a : AccountRow)
      → db.accounts r.owner_id ≡ some a
      → find_by_id r.id db.reservations ≡ some r
      → is_reserved r.status ≡ true
      → Move db (returned_db r reason a db)

-- any number of moves
pub data Moves (db : Db) : Db → Type 0 where
  here : Moves db db
  next : {mid after : Db} → Moves db mid → Move mid after → Moves db after

pub Moves-trans : {a b c : Db} → Moves a b → Moves b c → Moves a c
Moves-trans p here = p
Moves-trans p (next q m) = next (Moves-trans p q) m
