-- ===== src/Credit/Db.antt =====
-- The tables that the gateway writes (apps/api/migrations/0014_agent_credits.sql), the rows that
-- it reads back, and the statements that it issues, inside `withTransaction` (apps/agent/src/db.ts).
use arivion.Prelude.{
  ℕ, ◌+◌, String, ℤ, Bool, ◌&&◌, Option, none, some, List, [], ◌∷◌, ◌==◌, str_eq, any,
  if◌then◌else◌,
}
use arivion.Credit.Types.{ProviderMode, MeteringQuality, GatewayError, null_row, unique_violation}

pub data AccountStatus : Type 0 where
  active frozen : AccountStatus

pub record AccountRow : Type 0 where
  pub owner_id : ℕ
  pub currency : String
  pub managed_balance_micro_usd : ℕ
  pub lifetime_grants_micro_usd : ℕ
  pub lifetime_spend_micro_usd : ℕ
  pub status : AccountStatus

pub data ReservationStatus : Type 0 where
  reserved finalized released : ReservationStatus

pub record ReservationRow : Type 0 where
  pub id : String
  pub owner_id : ℕ
  pub idempotency_key : String
  pub reserved_micro_usd : ℕ
  pub finalized_micro_usd : Option ℕ
  pub status : ReservationStatus
  pub provider : String
  pub model : String
  pub provider_mode : ProviderMode

pub data EventType : Type 0 where
  grant reserve reserve_release debit refund : EventType

pub record LedgerRow : Type 0 where
  pub id : ℕ
  pub owner_id : ℕ
  pub idempotency_key : String
  pub event_type : EventType
  pub amount_micro_usd : ℤ
  pub balance_after_micro_usd : Option ℕ
  pub reservation_id : Option String
  pub reason : String

pub record UsageEventRow : Type 0 where
  pub owner_id : ℕ
  pub idempotency_key : String
  pub input_tokens : ℕ
  pub cached_input_tokens : ℕ
  pub output_tokens : ℕ
  pub reasoning_tokens : ℕ
  pub tool_call_count : ℕ
  pub provider_cost_micro_usd : ℕ
  pub duality_credit_debit_micro_usd : ℕ
  pub metering_quality : MeteringQuality
  pub status : String
  pub provider : String
  pub model : String
  pub provider_mode : ProviderMode

-- `accounts` is keyed by its primary key. New rows of the other tables stand in front.
pub record Db : Type 0 where
  pub accounts : ℕ → Option AccountRow
  pub reservations : List ReservationRow
  pub ledger : List LedgerRow
  pub next_ledger_id : ℕ
  pub usage_events : List UsageEventRow

pub data Result {ℓ} (A : Type ℓ) : Type ℓ where
  ok : A → Result A
  err : GatewayError → Result A

-- What runs between BEGIN and COMMIT.
abbrev pub Tx : Type 0 → Type 0
Tx A = Db → Result (A × Db)

abbrev pub pure : {A : Type 0} → A → Tx A
pure a db = ok (a, db)

abbrev pub throw : {A : Type 0} → GatewayError → Tx A
throw e db = err e

infixl 5 ◌>>=◌ ◌>>◌
abbrev pub ◌>>=◌ : {A B : Type 0} → Tx A → (A → Tx B) → Tx B
◌>>=◌ m f db = elim (m db) [ ok (a, db') ↦ f a db' | err e ↦ err e ]

abbrev pub ◌>>◌ : {A B : Type 0} → Tx A → Tx B → Tx B
m >> k = m >>= λ _. k

-- `if (!b) throw e`
abbrev pub require : Bool → GatewayError → Tx (Unit {0})
require b e db = if b then ok (tt, db) else err e

-- `(await m)!`
abbrev pub non_null : {A : Type 0} → Option A → Tx A
non_null none = throw null_row
non_null (some a) = pure a

-- `P` holds of what a successful run returns and leaves behind.
abbrev pub Ensures : {A : Type 0} → (A → Db → Type 0) → Result (A × Db) → Type 0
Ensures P (ok (a, db)) = P a db
Ensures P (err e) = Unit

-- COMMIT on success; on a throw ROLLBACK, and the error goes to the caller.
abbrev pub commit : {A : Type 0} → Result (A × Db) → Db → Result A × Db
commit (ok (a, db')) db = (ok a, db')
commit (err e) db = (err e, db)

abbrev pub with_transaction : {A : Type 0} → Tx A → Db → Result A × Db
with_transaction m db = commit (m db) db

-- `await f(); await g();`: two calls, each committed by itself
abbrev pub and_then : {A B : Type 0} → Result A × Db → (A → Db → Result B × Db) → Result B × Db
and_then (ok a, db) k = k a db
and_then (err e, db) k = (err e, db)

-- SELECT … FROM agent_credit_accounts WHERE owner_id = $1 FOR UPDATE
abbrev pub lock_account : ℕ → Tx (Option AccountRow)
lock_account owner db = ok (db.accounts owner, db)

abbrev pub put_account : ℕ → AccountRow → Db → Db
put_account owner a db = record db { accounts = λ o. if o == owner then some a else db.accounts o }

-- the defaults of the table
abbrev pub new_account : ℕ → AccountRow
new_account owner = record {
  owner_id = owner;
  currency = "USD";
  managed_balance_micro_usd = 0;
  lifetime_grants_micro_usd = 0;
  lifetime_spend_micro_usd = 0;
  status = active;
}

-- INSERT INTO agent_credit_accounts (owner_id) … ON CONFLICT (owner_id) DO NOTHING
abbrev pub insert_account : ℕ → Tx (Unit {0})
insert_account owner db = elim (db.accounts owner) [
  | some a ↦ ok (tt, db)
  | none ↦ ok (tt, put_account owner (new_account owner) db)
]

-- UPDATE agent_credit_accounts SET … WHERE owner_id = $1
abbrev pub update_account : ℕ → (AccountRow → AccountRow) → Tx (Unit {0})
update_account owner f db = elim (db.accounts owner) [
  | some a ↦ ok (tt, put_account owner (f a) db)
  | none ↦ ok (tt, db)
]

-- the unique index on (owner_id, idempotency_key)
unfoldable pub has_ledger_key : ℕ → String → List LedgerRow → Bool
has_ledger_key owner key rows = any (λ r. r.owner_id == owner && str_eq r.idempotency_key key) rows

abbrev pub push_ledger : LedgerRow → Db → Db
push_ledger row db = record db {
  ledger = record row { id = db.next_ledger_id } ∷ db.ledger;
  next_ledger_id = db.next_ledger_id + 1;
}

-- INSERT INTO agent_credit_ledger …
abbrev pub insert_ledger : LedgerRow → Tx (Unit {0})
insert_ledger row db =
    if has_ledger_key row.owner_id row.idempotency_key db.ledger
    then err unique_violation
    else ok (tt, push_ledger row db)

-- INSERT INTO agent_credit_ledger … ON CONFLICT DO NOTHING RETURNING id
abbrev pub insert_ledger_once : LedgerRow → Tx (Option ℕ)
insert_ledger_once row db =
    if has_ledger_key row.owner_id row.idempotency_key db.ledger
    then ok (none, db)
    else ok (some db.next_ledger_id, push_ledger row db)

-- UPDATE agent_credit_ledger SET balance_after_micro_usd = $2 WHERE id = $1
unfoldable pub set_balance_after : ℕ → ℕ → List LedgerRow → List LedgerRow
set_balance_after id balance [] = []
set_balance_after id balance (r ∷ rs) =
    (if r.id == id then record r { balance_after_micro_usd = some balance } else r)
    ∷ set_balance_after id balance rs

abbrev pub update_ledger_balance : ℕ → ℕ → Tx (Unit {0})
update_ledger_balance id balance db =
    ok (tt, record db { ledger = set_balance_after id balance db.ledger })

-- SELECT * FROM agent_credit_reservations WHERE owner_id = $1 AND idempotency_key = $2
unfoldable pub find_by_key : ℕ → String → List ReservationRow → Option ReservationRow
find_by_key owner key [] = none
find_by_key owner key (r ∷ rs) =
    if r.owner_id == owner && str_eq r.idempotency_key key then some r else find_by_key owner key rs

-- SELECT * FROM agent_credit_reservations WHERE id = $1 FOR UPDATE
unfoldable pub find_by_id : String → List ReservationRow → Option ReservationRow
find_by_id id [] = none
find_by_id id (r ∷ rs) = if str_eq r.id id then some r else find_by_id id rs

-- UPDATE agent_credit_reservations SET … WHERE id = $1: `id` is the primary key.
unfoldable pub update_by_id :
    String → (ReservationRow → ReservationRow) → List ReservationRow → List ReservationRow
update_by_id id f [] = []
update_by_id id f (r ∷ rs) = if str_eq r.id id then f r ∷ rs else r ∷ update_by_id id f rs

abbrev pub select_by_key : ℕ → String → Tx (Option ReservationRow)
select_by_key owner key db = ok (find_by_key owner key db.reservations, db)

abbrev pub select_by_id : String → Tx (Option ReservationRow)
select_by_id id db = ok (find_by_id id db.reservations, db)

abbrev pub update_reservation : String → (ReservationRow → ReservationRow) → Tx (Unit {0})
update_reservation id f db = ok (tt, record db { reservations = update_by_id id f db.reservations })

-- INSERT INTO agent_credit_reservations …, under its primary key and its unique index
abbrev pub insert_reservation : ReservationRow → Tx (Unit {0})
insert_reservation r db = elim (find_by_id r.id db.reservations) [
  | some _ ↦ err unique_violation
  | none ↦ elim (find_by_key r.owner_id r.idempotency_key db.reservations) [
    | some _ ↦ err unique_violation
    | none ↦ ok (tt, record db { reservations = r ∷ db.reservations })
  ]
]

abbrev pub empty_db : Db
empty_db = record {
  accounts = λ _. none;
  reservations = [];
  ledger = [];
  next_ledger_id = 1;
  usage_events = [];
}
