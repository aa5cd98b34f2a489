-- ===== src/Credit/Refine.antt =====
-- The transactions of llm-gateway/creditLedger.ts and llm-gateway/reservation.ts are made of moves:
-- what one leaves behind, if it commits, is reached by moves from where it began.
use arivion.Prelude.{
  ℕ, String, ℤ, pos_part, ◌≡◌, refl, some, arith, min, Option-cases, inl, inr, Bool-cases,
}
use Prim.Native.String.{◌++◌}
use arivion.Credit.Db.{
  AccountRow, Db, Result, ok, err, find_by_id, find_by_key, Ensures, has_ledger_key, ◌>>=◌,
  put_account, new_account,
}
use arivion.Credit.Ledger.{GrantConfig, grant_once, ensure_account_tx, grant_tx}
use arivion.Credit.Reservation.{
  ReserveArgs, is_active, is_reserved, new_reservation, reserve_tx, finalize_tx, release_tx,
  finalize_found, release_found, reserve_locked, hold_once,
}
use arivion.Credit.Moves.{opened, granted, Moves, here, next, Moves-trans}
use arivion.Credit.Rules.{
  find_by_id_again, give_back-Moves, hold-Moves, put_account_self, settle-Moves,
}

grant_once-Moves :
    (owner : ℕ) (key : String) (amount : ℕ) (reason : String) (a : AccountRow) (db : Db)
    → db.accounts owner ≡ some a
    → Ensures (λ _. Moves db) (grant_once owner key amount reason a db)
unfolding grant_once
grant_once-Moves owner key amount reason a db acc =
    elim (Bool-cases (has_ledger_key owner key db.ledger)) [
      | inl taken ↦ rw (taken, Ensures, ◌>>=◌) here
      | inr fresh ↦
          rw (fresh, Ensures, ◌>>=◌)
            (rw (acc, Ensures, ◌>>=◌) (next here (granted owner key amount reason a acc)))
    ]

pub grant_tx-Moves :
    (owner amount : ℕ) (reason key : String) (db : Db)
    → Ensures (λ _. Moves db) (grant_tx owner amount reason key db)
unfolding grant_tx
grant_tx-Moves owner amount reason key db = elim (Option-cases (db.accounts owner)) [
  | inl missing ↦ rw (missing, Ensures, ◌>>=◌) tt
  | inr (a, acc) ↦ rw (acc, Ensures, ◌>>=◌) (grant_once-Moves owner key amount reason a db acc)
]

Ensures-after :
    {A : Type 0} {a b : Db} (r : Result (A × Db))
    → Moves a b
    → Ensures (λ _. Moves b) r
    → Ensures (λ _. Moves a) r
Ensures-after (ok (x, c)) p h = Moves-trans p h
Ensures-after (err e) p h = tt

pub ensure_account_tx-Moves :
    (config : GrantConfig) (owner : ℕ) (db : Db)
    → Ensures (λ _. Moves db) (ensure_account_tx config owner db)
unfolding ensure_account_tx
ensure_account_tx-Moves config owner db =
    let key = "WELCOME_GRANT:" ++ config.show_owner owner in
    let amount = config.welcome_credit_micro_usd in
    elim (Option-cases (db.accounts owner)) [
      | inr (a, acc) ↦
          rw (acc, Ensures, ◌>>=◌)
            (rw (acc, Ensures, ◌>>=◌) (grant_once-Moves owner key amount "WELCOME_GRANT" a db acc))
      | inl missing ↦
          rw (missing, Ensures, ◌>>=◌)
            (let open_db = put_account owner (new_account owner) db in
              let acc = put_account_self owner (new_account owner) db in
              rw (acc, Ensures, ◌>>=◌)
                (Ensures-after
                  (grant_once owner key amount "WELCOME_GRANT" (new_account owner) open_db)
                  (next here (opened owner missing))
                  (grant_once-Moves owner key amount "WELCOME_GRANT" (new_account owner) open_db
                    acc)))
    ]

pub finalize_tx-Moves :
    (id : String) (actual : ℤ) (db : Db) → Ensures (λ _. Moves db) (finalize_tx id actual db)
unfolding finalize_tx finalize_found
finalize_tx-Moves id actual db = elim (Option-cases (find_by_id id db.reservations)) [
  | inl missing ↦ rw (missing, Ensures, ◌>>=◌) tt
  | inr (r, found) ↦
      rw (found, Ensures, ◌>>=◌)
        (elim (Bool-cases (is_reserved r.status)) [
          | inr done ↦ rw (done, Ensures, ◌>>=◌) here
          | inl live ↦
              rw (live, Ensures, ◌>>=◌)
                (elim (Option-cases (db.accounts r.owner_id)) [
                  | inl missing ↦ rw (missing, Ensures, ◌>>=◌) tt
                  | inr (a, acc) ↦
                      rw (acc, Ensures, ◌>>=◌)
                        (settle-Moves r a db acc (min (pos_part actual) r.reserved_micro_usd)
                          (find_by_id_again id db.reservations r found) live (omega arith))
                ])
        ])
]

pub release_tx-Moves :
    (id reason : String) (db : Db) → Ensures (λ _. Moves db) (release_tx id reason db)
unfolding release_tx release_found
release_tx-Moves id reason db = elim (Option-cases (find_by_id id db.reservations)) [
  | inl missing ↦ rw (missing, Ensures, ◌>>=◌) here
  | inr (r, found) ↦
      rw (found, Ensures, ◌>>=◌)
        (elim (Bool-cases (is_reserved r.status)) [
          | inr done ↦ rw (done, Ensures, ◌>>=◌) here
          | inl live ↦
              rw (live, Ensures, ◌>>=◌)
                (elim (Option-cases (db.accounts r.owner_id)) [
                  | inl missing ↦ rw (missing, Ensures, ◌>>=◌) tt
                  | inr (a, acc) ↦
                      rw (acc, Ensures, ◌>>=◌)
                        (give_back-Moves r a db acc reason
                          (find_by_id_again id db.reservations r found) live)
                ])
        ])
]

pub reserve_tx-Moves :
    (id : String) (args : ReserveArgs) (db : Db) → Ensures (λ _. Moves db) (reserve_tx id args db)
unfolding reserve_tx reserve_locked hold_once
reserve_tx-Moves id args db = elim (Option-cases (db.accounts args.owner_id)) [
  | inl missing ↦ rw (missing, Ensures, ◌>>=◌) tt
  | inr (a, acc) ↦
      rw (acc, Ensures, ◌>>=◌)
        (elim (Bool-cases (is_active a.status)) [
          | inr blocked ↦ rw (blocked, Ensures, ◌>>=◌) tt
          | inl live ↦
              rw (live, Ensures, ◌>>=◌)
                (elim (Option-cases
                  (find_by_key args.owner_id args.idempotency_key db.reservations)) [
                    | inr (r, e) ↦ rw (e, Ensures, ◌>>=◌) here
                    | inl new_key ↦
                        rw (new_key, Ensures, ◌>>=◌)
                          (hold-Moves (new_reservation id args) a db acc refl)
                  ])
        ])
]
