-- ===== src/Credit/Effects.antt =====
-- What `finalize` and `release` do to the account and to the reservation when their guards pass.
use arivion.Prelude.{
  ℕ, ◌+◌, ◌-◌, min, String, ℤ, pos_part, ◌≡◌, ◌≢◌, refl, true, false, some, List, [], ◌∷◌, arith,
  eq_iff, leb, Bool-cases, inl, inr,
}
use Prim.Native.String.{◌++◌}
use text.Mathlib.TextLemmas.{append_cancel_left}
use arivion.Credit.Db.{
  AccountRow, ReservationRow, LedgerRow, Db, ok, find_by_id, update_by_id, has_ledger_key, ◌>>=◌,
  commit,
}
use arivion.Credit.Reservation.{
  is_reserved, mark_finalized, mark_released, release_row, finalize, finalize_tx, finalize_found,
  settle, insert_debit, release, release_tx, release_found, give_back,
}
use arivion.Credit.Moves.{settled_db, returned_db}
use arivion.Credit.Rules.{id-find_by_id}

release_ne_debit : (id : String) → id ++ ":release" ≢ id ++ ":debit"
release_ne_debit id e =
    cc ((eq_iff ":release" ":debit").1 (append_cancel_left id ":release" ":debit" e))

-- The row of the release does not take the key of the debit.
has_ledger_key-debit :
    (r : ReservationRow) (released next_id : ℕ) (rows : List LedgerRow)
    → has_ledger_key r.owner_id (r.id ++ ":debit") rows ≡ false
    → has_ledger_key r.owner_id
        (r.id ++ ":debit")
        (record (release_row r released) { id = next_id } ∷ rows)
      ≡ false
unfolding has_ledger_key
has_ledger_key-debit r released next_id rows fresh =
    ground (arith, eq_iff (r.id ++ ":release") (r.id ++ ":debit"), release_ne_debit r.id)

find_by_id-update_by_id_self :
    (f : ReservationRow → ReservationRow)
    → ((x : ReservationRow) → (f x).id ≡ x.id)
    → (id : String) (rs : List ReservationRow) (r : ReservationRow) → find_by_id id rs ≡ some r
    → find_by_id id (update_by_id r.id f rs) ≡ some (f r)
unfolding find_by_id update_by_id
find_by_id-update_by_id_self f keeps id [] r h = cc
find_by_id-update_by_id_self f keeps id (x ∷ rs) r h =
    let own : r.id ≡ id = id-find_by_id id (x ∷ rs) r h in
    ground (
      arith,
      keeps x,
      eq_iff x.id id,
      eq_iff x.id r.id,
      find_by_id-update_by_id_self f keeps id rs r,
    )

module _ (id : String) (r : ReservationRow) (a : AccountRow) (db : Db)
    (found : find_by_id id db.reservations ≡ some r) (live : is_reserved r.status ≡ true)
    (acc : db.accounts r.owner_id ≡ some a) where
  finalize-settled_db :
      (actual : ℤ)
      → has_ledger_key r.owner_id (r.id ++ ":release") db.ledger ≡ false
      → has_ledger_key r.owner_id (r.id ++ ":debit") db.ledger ≡ false
      → finalize id actual db
        ≡ (ok tt, settled_db r (min (pos_part actual) r.reserved_micro_usd) a db)
  unfolding finalize finalize_tx finalize_found settle insert_debit
  finalize-settled_db actual fresh fresh' =
      let charge = min (pos_part actual) r.reserved_micro_usd in
      let released = a.managed_balance_micro_usd + r.reserved_micro_usd in
      let debit_fresh = has_ledger_key-debit r released db.next_ledger_id db.ledger fresh' in
      rw (found, commit, ◌>>=◌)
        (rw (live, commit, ◌>>=◌)
          (rw (acc, commit, ◌>>=◌)
            (rw (fresh, commit, ◌>>=◌)
              (elim (Bool-cases (leb charge 0)) [
                | inl free ↦ rw (free, commit, ◌>>=◌) (rw (acc, commit, ◌>>=◌) refl)
                | inr paid ↦
                    rw (paid, commit, ◌>>=◌)
                      (rw (debit_fresh, commit, ◌>>=◌) (rw (acc, commit, ◌>>=◌) refl))
              ]))))

  -- An open reservation is charged the actual cost, but never more than its hold: the rest of the
  -- hold is back in the balance, the charge is in the lifetime spend, the row is finalized with the
  -- charge, and another owner's account does not change. Conditions: the owner has an
  -- account, and the two ledger keys of the settlement are free.
  pub finalize_effect :
      (actual : ℤ) (o : ℕ)
      → o ≢ r.owner_id
      → has_ledger_key r.owner_id (r.id ++ ":release") db.ledger ≡ false
      → has_ledger_key r.owner_id (r.id ++ ":debit") db.ledger ≡ false
      → let (result, db') = finalize id actual db in
        let charge = min (pos_part actual) r.reserved_micro_usd in
        (result ≡ ok tt)
        × (db'.accounts r.owner_id
            ≡ some (record a {
              managed_balance_micro_usd =
                  a.managed_balance_micro_usd + r.reserved_micro_usd - charge;
              lifetime_spend_micro_usd = a.lifetime_spend_micro_usd + charge;
            }))
        × (find_by_id id db'.reservations ≡ some (mark_finalized charge r))
        × (db'.accounts o ≡ db.accounts o)
  finalize_effect actual o other fresh fresh' =
      let charge = min (pos_part actual) r.reserved_micro_usd in
      rw (finalize-settled_db actual fresh fresh') (
        refl,
        ground arith,
        find_by_id-update_by_id_self (mark_finalized charge) (λ x. refl) id db.reservations r found,
        ground arith,
      )

  release-returned_db :
      (reason : String)
      → has_ledger_key r.owner_id (r.id ++ ":refund") db.ledger ≡ false
      → release id reason db ≡ (ok tt, returned_db r reason a db)
  unfolding release release_tx release_found give_back
  release-returned_db reason fresh =
      rw (found, commit, ◌>>=◌)
        (rw (live, commit, ◌>>=◌)
          (rw (acc, commit, ◌>>=◌) (rw (acc, commit, ◌>>=◌) (rw (fresh, commit, ◌>>=◌) refl))))

  -- An open reservation that is released gives its whole hold back to the balance, spends nothing,
  -- and another owner's account does not change. Conditions: the owner has
  -- an account, and the ledger key of the refund is free.
  release_effect :
      (reason : String) (o : ℕ)
      → o ≢ r.owner_id
      → has_ledger_key r.owner_id (r.id ++ ":refund") db.ledger ≡ false
      → let (result, db') = release id reason db in
        (result ≡ ok tt)
        × (db'.accounts r.owner_id
            ≡ some (record a {
              managed_balance_micro_usd = a.managed_balance_micro_usd + r.reserved_micro_usd;
            }))
        × (find_by_id id db'.reservations ≡ some (mark_released r))
        × (db'.accounts o ≡ db.accounts o)
  release_effect reason o other fresh = rw (release-returned_db reason fresh) (
    refl,
    ground arith,
    find_by_id-update_by_id_self mark_released (λ x. refl) id db.reservations r found,
    ground arith,
  )
