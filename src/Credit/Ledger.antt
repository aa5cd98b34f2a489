-- ===== src/Credit/Ledger.antt =====
-- llm-gateway/creditLedger.ts: the welcome grant and the admin grants. What the two have in common,
-- one ledger row for each key and a balance that moves only if the row is new, is `grant_once`.
use arivion.Prelude.{ℕ, ◌+◌, String, ℤ, pos, pos_part, Option, none, some, leb, if◌then◌else◌}
use Prim.Native.String.{◌++◌}
use arivion.Credit.Types.{invalid_grant_amount}
use arivion.Credit.Db.{
  AccountRow, LedgerRow, EventType, Db, Result, err, Tx, pure, ◌>>=◌, ◌>>◌, non_null,
  with_transaction, and_then, lock_account, insert_account, update_account, insert_ledger_once,
  update_ledger_balance,
}

-- `WELCOME_CREDIT_MICRO_USD`, and how a template literal writes an owner id
pub record GrantConfig : Type 0 where
  pub welcome_credit_micro_usd : ℕ
  pub show_owner : ℕ → String

abbrev add_grant : ℕ → AccountRow → AccountRow
add_grant amount a = record a {
  managed_balance_micro_usd = a.managed_balance_micro_usd + amount;
  lifetime_grants_micro_usd = a.lifetime_grants_micro_usd + amount;
}

-- The row is inserted without its balance, which `update_ledger_balance` fills in.
abbrev pub grant_row : ℕ → String → ℕ → String → LedgerRow
grant_row owner key amount reason = record {
  id = 0;
  owner_id = owner;
  idempotency_key = key;
  event_type = EventType.grant;
  amount_micro_usd = pos amount;
  balance_after_micro_usd = none;
  reservation_id = none;
  reason = reason;
}

-- `if (ins.rowCount) { … }`, where `id` is what the INSERT returned
unfoldable post_grant : ℕ → ℕ → AccountRow → Option ℕ → Tx AccountRow
post_grant owner amount account none = pure account
post_grant owner amount account (some id) = do
  let new_balance = account.managed_balance_micro_usd + amount
  update_account owner (λ a. record a {
    managed_balance_micro_usd = new_balance;
    lifetime_grants_micro_usd = a.lifetime_grants_micro_usd + amount;
  })
  update_ledger_balance id new_balance
  pure (add_grant amount account)

unfoldable pub grant_once : ℕ → String → ℕ → String → AccountRow → Tx AccountRow
unfolding post_grant
grant_once owner key amount reason account = do
  ins ← insert_ledger_once (grant_row owner key amount reason)
  post_grant owner amount account ins

unfoldable pub ensure_account_tx : GrantConfig → ℕ → Tx AccountRow
unfolding grant_once
ensure_account_tx config owner = do
  insert_account owner
  account ← non_null (← lock_account owner)
  grant_once owner ("WELCOME_GRANT:" ++ config.show_owner owner) config.welcome_credit_micro_usd
      "WELCOME_GRANT" account

unfoldable pub ensure_account : GrantConfig → ℕ → Db → Result AccountRow × Db
unfolding ensure_account_tx
ensure_account config owner = with_transaction (ensure_account_tx config owner)

unfoldable pub grant_tx : ℕ → ℕ → String → String → Tx AccountRow
unfolding grant_once
grant_tx owner amount reason key = do
  account ← non_null (← lock_account owner)
  grant_once owner key amount reason account

-- `recordGrant`: an amount that is not positive is refused before anything is written.
unfoldable pub record_grant : GrantConfig → ℕ → ℤ → String → String → Db → Result AccountRow × Db
unfolding ensure_account grant_tx
record_grant config owner amount reason key db =
    if leb (pos_part amount) 0
    then (err invalid_grant_amount, db)
    else and_then (ensure_account config owner db)
        (λ _. with_transaction (grant_tx owner (pos_part amount) reason key))
