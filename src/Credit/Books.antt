-- ===== src/Credit/Books.antt =====
-- The books of the credit tables: sums over one owner's rows, and that every move keeps them.
use arivion.Prelude.{
  ℕ, ◌+◌, ◌≤◌, String, pos_part, neg_part, pos_part-neg, neg_part-neg, ◌≡◌, refl, ◌&&◌, Option,
  none, some, List, [], ◌∷◌, ◌==◌, if◌then◌else◌, arith,
}
use arivion.Credit.Db.{
  AccountRow, ReservationRow, LedgerRow, Db, find_by_id, update_by_id, set_balance_after, empty_db,
  push_ledger,
}
use arivion.Credit.Ledger.{GrantConfig, grant_row}
use arivion.Credit.Reservation.{is_reserved, mark_finalized, mark_released}
use arivion.Credit.Moves.{Move, opened, granted, held, settled, returned, Moves, here, next}
use arivion.Credit.Request.{Call}
use arivion.Credit.Calls.{run_calls}
use arivion.Credit.Committed.{run_calls-Moves}

abbrev pub credited : ℕ → List LedgerRow → ℕ
credited o [] = 0
credited o (r ∷ rs) = (if r.owner_id == o then pos_part r.amount_micro_usd else 0) + credited o rs

abbrev pub debited : ℕ → List LedgerRow → ℕ
debited o [] = 0
debited o (r ∷ rs) = (if r.owner_id == o then neg_part r.amount_micro_usd else 0) + debited o rs

-- what reservation `r` holds of owner `o`'s money
abbrev hold_of : ℕ → ReservationRow → ℕ
hold_of o r = if r.owner_id == o && is_reserved r.status then r.reserved_micro_usd else 0

abbrev pub on_hold : ℕ → List ReservationRow → ℕ
on_hold o [] = 0
on_hold o (r ∷ rs) = hold_of o r + on_hold o rs

abbrev pub column : (AccountRow → ℕ) → Option AccountRow → ℕ
column f none = 0
column f (some a) = f a

abbrev pub balance : Db → ℕ → ℕ
balance db o = column (λ a. a.managed_balance_micro_usd) (db.accounts o)

abbrev pub grants : Db → ℕ → ℕ
grants db o = column (λ a. a.lifetime_grants_micro_usd) (db.accounts o)

abbrev pub spend : Db → ℕ → ℕ
spend db o = column (λ a. a.lifetime_spend_micro_usd) (db.accounts o)

-- For every owner, the ledger adds up to the balance, and what was granted is what is left, what
-- is held and what was spent.
pub record Books (db : Db) : Type 0 where
  pub posted : (o : ℕ) → credited o db.ledger ≡ balance db o + debited o db.ledger
  pub split : (o : ℕ) → grants db o ≡ balance db o + on_hold o db.reservations + spend db o

credited-set_balance_after :
    (o id b : ℕ) (rs : List LedgerRow) → credited o (set_balance_after id b rs) ≡ credited o rs
unfolding set_balance_after
credited-set_balance_after o id b [] = refl
credited-set_balance_after o id b (r ∷ rs) = ground (arith, credited-set_balance_after o id b rs)

debited-set_balance_after :
    (o id b : ℕ) (rs : List LedgerRow) → debited o (set_balance_after id b rs) ≡ debited o rs
unfolding set_balance_after
debited-set_balance_after o id b [] = refl
debited-set_balance_after o id b (r ∷ rs) = ground (arith, debited-set_balance_after o id b rs)

on_hold-update_by_id :
    (o : ℕ) (id : String) (f : ReservationRow → ReservationRow) (rs : List ReservationRow)
    (r : ReservationRow)
    → find_by_id id rs ≡ some r
    → on_hold o (update_by_id id f rs) + hold_of o r ≡ on_hold o rs + hold_of o (f r)
unfolding find_by_id update_by_id
on_hold-update_by_id o id f [] r h = cc
on_hold-update_by_id o id f (x ∷ rs) r h = ground (arith, on_hold-update_by_id o id f rs r)

Move-Books : {db after : Db} → Move db after → Books db → Books after
Move-Books (opened owner missing) b = record {
  posted = λ o. ground (arith, b.posted o);
  split = λ o. ground (arith, b.split o);
}
Move-Books {db} (granted owner key amount reason a acc) b = record {
  posted = λ o.
      let rows = (push_ledger (grant_row owner key amount reason) db).ledger in
      let new = a.managed_balance_micro_usd + amount in
      ground (
        arith,
        b.posted o,
        credited-set_balance_after o db.next_ledger_id new rows,
        debited-set_balance_after o db.next_ledger_id new rows,
      );
  split = λ o. ground (arith, b.split o);
}
Move-Books (held r a acc new covered new_id new_key) b = record {
  posted = λ o.
      ground
        (arith, b.posted o, pos_part-neg r.reserved_micro_usd, neg_part-neg r.reserved_micro_usd);
  split = λ o. ground (arith, b.split o);
}
Move-Books {db} (settled r charge a acc found live le) b = record {
  posted = λ o. ground (arith, b.posted o, pos_part-neg charge, neg_part-neg charge);
  split = λ o. ground (
    arith,
    b.split o,
    on_hold-update_by_id o r.id (mark_finalized charge) db.reservations r found,
  );
}
Move-Books {db} (returned r reason a acc found live) b = record {
  posted = λ o. ground (arith, b.posted o);
  split = λ o.
      ground (arith, b.split o, on_hold-update_by_id o r.id mark_released db.reservations r found);
}

pub Moves-Books : {db after : Db} → Moves db after → Books db → Books after
Moves-Books here b = b
Moves-Books (next p m) b = Move-Books m (Moves-Books p b)

pub empty_db-Books : Books empty_db
empty_db-Books = record { posted = λ o. refl; split = λ o. refl }

-- From empty tables, after any calls for any owners in any order, every owner's ledger rows add up
-- to the balance, and the grants are the balance, the open holds and the spend together; so what is
-- spent and held never exceeds what was granted.
pub run_calls_balanced :
    (config : GrantConfig) (cs : List Call) (o : ℕ)
    → let db = run_calls config cs empty_db in
      (credited o db.ledger ≡ balance db o + debited o db.ledger)
      × (grants db o ≡ balance db o + on_hold o db.reservations + spend db o)
      × (on_hold o db.reservations + spend db o ≤ grants db o)
run_calls_balanced config cs o =
    let b = Moves-Books (run_calls-Moves config cs empty_db) empty_db-Books in
    (b.posted o, b.split o, omega (arith, b.split o))
