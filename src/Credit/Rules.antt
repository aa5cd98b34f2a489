-- ===== src/Credit/Rules.antt =====
-- What settling, returning and holding do to the tables is a move (llm-gateway/reservation.ts).
use arivion.Prelude.{
  ℕ, ◌+◌, ◌≤◌, String, ◌≡◌, ap, ◌∙◌, true, none, some, List, [], ◌∷◌, arith, leb, ltb, Option-cases,
  inl, inr, Bool-cases, eq_iff,
}
use Prim.Native.String.{◌++◌}
use arivion.Credit.Db.{
  AccountRow, ReservationRow, ReservationStatus, Db, find_by_id, find_by_key, Ensures,
  has_ledger_key, ◌>>=◌, put_account, push_ledger,
}
use arivion.Credit.Reservation.{is_reserved, hold, settle, insert_debit, give_back, release_row}
use arivion.Credit.Moves.{held, settled, returned, Moves, here, next, settled_db, held_db}

-- An id that was found is the row's own.
pub id-find_by_id :
    (id : String) (rs : List ReservationRow) (r : ReservationRow)
    → find_by_id id rs ≡ some r
    → r.id ≡ id
unfolding find_by_id
id-find_by_id id [] r h = cc
id-find_by_id id (x ∷ rs) r h = ground (arith, eq_iff x.id id, id-find_by_id id rs r)

pub find_by_id_again :
    (id : String) (rs : List ReservationRow) (r : ReservationRow)
    → find_by_id id rs ≡ some r
    → find_by_id r.id rs ≡ some r
find_by_id_again id rs r h = ap (λ k. find_by_id k rs) (id-find_by_id id rs r h) ∙ h

pub put_account_self :
    (owner : ℕ) (a : AccountRow) (db : Db) → (put_account owner a db).accounts owner ≡ some a
put_account_self owner a db = ground arith

module _ (r : ReservationRow) (a : AccountRow) (db : Db)
    (acc : db.accounts r.owner_id ≡ some a) where
  pub give_back-Moves :
      (reason : String)
      → find_by_id r.id db.reservations ≡ some r
      → is_reserved r.status ≡ true
      → Ensures (λ _. Moves db) (give_back r reason a db)
  unfolding give_back
  give_back-Moves reason found live =
      rw (acc, Ensures, ◌>>=◌)
        (elim (Bool-cases (has_ledger_key r.owner_id (r.id ++ ":refund") db.ledger)) [
          | inl taken ↦ rw (taken, Ensures, ◌>>=◌) tt
          | inr fresh ↦ rw (fresh, Ensures, ◌>>=◌) (next here (returned r reason a acc found live))
        ])

  pub settle-Moves :
      (charge : ℕ)
      → find_by_id r.id db.reservations ≡ some r
      → is_reserved r.status ≡ true
      → charge ≤ r.reserved_micro_usd
      → Ensures (λ _. Moves db) (settle r charge a db)
  unfolding settle insert_debit
  settle-Moves charge found live le =
      let move : Moves db (settled_db r charge a db) =
        next here (settled r charge a acc found live le) in
      elim (Bool-cases (has_ledger_key r.owner_id (r.id ++ ":release") db.ledger)) [
        | inl taken ↦ rw (taken, Ensures, ◌>>=◌) tt
        | inr fresh ↦
            rw (fresh, Ensures, ◌>>=◌)
              (elim (Bool-cases (leb charge 0)) [
                | inl free ↦ rw (free, Ensures, ◌>>=◌) (rw (acc, Ensures, ◌>>=◌) (rw free at move))
                | inr paid ↦
                    let released = a.managed_balance_micro_usd + r.reserved_micro_usd in
                    rw (paid, Ensures, ◌>>=◌)
                      (elim (Bool-cases (
                        has_ledger_key r.owner_id (r.id ++ ":debit")
                          (push_ledger (release_row r released) db).ledger)) [
                            | inl taken ↦ rw (taken, Ensures, ◌>>=◌) tt
                            | inr fresh' ↦
                                rw (fresh', Ensures, ◌>>=◌)
                                  (rw (acc, Ensures, ◌>>=◌) (rw paid at move))
                          ])
              ])
      ]

  -- What `hold` returns and leaves behind, once its guards have passed.
  pub hold_rule :
      (P : ReservationRow → Db → Type 0)
      → (r.reserved_micro_usd ≤ a.managed_balance_micro_usd
          → find_by_id r.id db.reservations ≡ none
          → find_by_key r.owner_id r.idempotency_key db.reservations ≡ none
          → P r (held_db r a db))
      → Ensures P (hold r a db)
  unfolding hold
  hold_rule P result = elim (Bool-cases (ltb a.managed_balance_micro_usd r.reserved_micro_usd)) [
    | inl short ↦ rw (short, Ensures, ◌>>=◌) tt
    | inr covered ↦
        rw (covered, Ensures, ◌>>=◌)
          (elim (Option-cases (find_by_id r.id db.reservations)) [
            | inr (x, e) ↦ rw (e, Ensures, ◌>>=◌) tt
            | inl new_id ↦
                rw (new_id, Ensures, ◌>>=◌)
                  (elim (Option-cases (find_by_key r.owner_id r.idempotency_key db.reservations)) [
                    | inr (x, e) ↦ rw (e, Ensures, ◌>>=◌) tt
                    | inl new_key ↦
                        rw (new_key, Ensures, ◌>>=◌)
                          (rw (acc, Ensures, ◌>>=◌)
                            (elim (Bool-cases (
                              has_ledger_key r.owner_id (r.idempotency_key ++ ":reserve")
                                db.ledger)) [
                                  | inl taken ↦ rw (taken, Ensures, ◌>>=◌) tt
                                  | inr fresh ↦
                                      rw (fresh, Ensures, ◌>>=◌)
                                        (result (ground arith) new_id new_key)
                                ]))
                  ])
          ])
  ]

  pub hold-Moves : r.status ≡ ReservationStatus.reserved → Ensures (λ _. Moves db) (hold r a db)
  hold-Moves new =
      hold_rule (λ _. Moves db)
        (λ covered new_id new_key. next here (held r a acc new covered new_id new_key))
