-- ===== src/Credit/Retries.antt =====
-- What `reserve` does when its guards pass, and when a call of it is repeated
-- (llm-gateway/reservation.ts).
use arivion.Prelude.{
  ℕ, ◌-◌, ◌≤◌, ◌<◌, String, pos_part, ◌≡◌, refl, ap, true, false, some, none, arith, eq_iff, ltb,
  Bool-cases, Option-cases, inl, inr,
}
use Prim.Native.String.{◌++◌}
use mathlib.Core.Path.{subst₂}
use arivion.Credit.Types.{insufficient_credit}
use arivion.Credit.Db.{
  AccountRow, AccountStatus, ReservationRow, Db, Result, ok, err, find_by_id, find_by_key,
  has_ledger_key, ◌>>=◌, commit, Ensures,
}
use arivion.Credit.Reservation.{
  ReserveArgs, is_active, new_reservation, reserve, reserve_tx, reserve_locked, hold_once, hold,
}
use arivion.Credit.Rules.{hold_rule}

-- the outcomes of `reserve` for an account that exists and is active
module _ (id : String) (args : ReserveArgs) (a : AccountRow) (db : Db)
    (acc : db.accounts args.owner_id ≡ some a)
    (open_account : a.status ≡ AccountStatus.active) where
  -- For an account that exists and is active, a new id, a new key and a free ledger key: a hold
  -- that the balance covers leaves the balance by its amount and
  -- is recorded as open, under its id and under its key.
  reserve_effect :
      find_by_id id db.reservations ≡ none
      → find_by_key args.owner_id args.idempotency_key db.reservations ≡ none
      → has_ledger_key args.owner_id (args.idempotency_key ++ ":reserve") db.ledger ≡ false
      → pos_part args.reserved_micro_usd ≤ a.managed_balance_micro_usd
      → let amount = pos_part args.reserved_micro_usd in
        let (result, db') = reserve id args db in
        (result ≡ ok (new_reservation id args))
        × (db'.accounts args.owner_id
            ≡ some (record a { managed_balance_micro_usd = a.managed_balance_micro_usd - amount }))
        × (find_by_key args.owner_id args.idempotency_key db'.reservations
            ≡ some (new_reservation id args))
        × (find_by_id id db'.reservations ≡ some (new_reservation id args))
  unfolding reserve reserve_tx reserve_locked hold_once hold
  reserve_effect new_id new_key fresh covered =
      let live : is_active a.status ≡ true = rw open_account refl in
      let fits : ltb a.managed_balance_micro_usd (pos_part args.reserved_micro_usd) ≡ false =
        ground arith in
      rw (acc, commit, ◌>>=◌)
        (rw (live, commit, ◌>>=◌)
          (rw (new_key, commit, ◌>>=◌)
            (rw (fits, commit, ◌>>=◌)
              (rw (new_id, commit, ◌>>=◌)
                (rw (new_key, commit, ◌>>=◌)
                  (rw (acc, commit, ◌>>=◌)
                    (rw (fresh, commit, ◌>>=◌)
                      (
                        refl,
                        ground arith,
                        unfold find_by_key in
                            ground (arith, eq_iff args.idempotency_key args.idempotency_key),
                        unfold find_by_id in ground (arith, eq_iff id id),
                      ))))))))

  -- For an account that exists and is active and a new key: a hold that the balance does not cover is
  -- refused and nothing is written.
  reserve_short :
      find_by_key args.owner_id args.idempotency_key db.reservations ≡ none
      → a.managed_balance_micro_usd < pos_part args.reserved_micro_usd
      → reserve id args db ≡ (err insufficient_credit, db)
  unfolding reserve reserve_tx reserve_locked hold_once hold
  reserve_short new_key short =
      let live : is_active a.status ≡ true = rw open_account refl in
      let lacks : ltb a.managed_balance_micro_usd (pos_part args.reserved_micro_usd) ≡ true =
        ground arith in
      rw (acc, commit, ◌>>=◌)
        (rw (live, commit, ◌>>=◌) (rw (new_key, commit, ◌>>=◌) (rw (lacks, commit, ◌>>=◌) refl)))

ok-injective : {A : Type 0} {a b : A} → ok a ≡ ok b → a ≡ b
ok-injective e = cc

-- What a successful `reserve` leaves behind: its row under its key, for an active account.
abbrev Holds : ℕ → String → ReservationRow → Db → Type 0
Holds owner key r db =
    (find_by_key owner key db.reservations ≡ some r)
    × ((a : AccountRow) × (db.accounts owner ≡ some a) × (is_active a.status ≡ true))

reserve_tx-Holds :
    (id : String) (args : ReserveArgs) (db : Db)
    → Ensures (Holds args.owner_id args.idempotency_key) (reserve_tx id args db)
unfolding reserve_tx reserve_locked hold_once
reserve_tx-Holds id args db = elim (Option-cases (db.accounts args.owner_id)) [
  | inl missing ↦ rw (missing, Ensures, ◌>>=◌) tt
  | inr (a, acc) ↦
      rw (acc, Ensures, ◌>>=◌)
        (elim (Bool-cases (is_active a.status)) [
          | inr blocked ↦ rw (blocked, Ensures, ◌>>=◌) tt
          | inl live ↦
              rw (live, Ensures, ◌>>=◌)
                (elim (Option-cases
                  (find_by_key args.owner_id args.idempotency_key db.reservations)) [
                    | inr (r, e) ↦ rw (e, Ensures, ◌>>=◌) (e, (a, acc, live))
                    | inl new_key ↦
                        rw (new_key, Ensures, ◌>>=◌)
                          (hold_rule (new_reservation id args) a db acc
                            (Holds args.owner_id args.idempotency_key)
                            (λ covered new_id new_key. (
                              unfold find_by_key in
                                  ground (arith, eq_iff args.idempotency_key args.idempotency_key),
                              (
                                record a {
                                  managed_balance_micro_usd =
                                      a.managed_balance_micro_usd
                                      - pos_part args.reserved_micro_usd;
                                },
                                ground arith,
                                live,
                              ),
                            )))
                  ])
        ])
]

commit-ok :
    {A : Type 0} (P : A → Db → Type 0) (m : Result (A × Db)) (db after : Db) (a : A)
    → Ensures P m
    → commit m db ≡ (ok a, after)
    → P a after
commit-ok P (ok (x, db')) db after a h e =
    subst₂ P (ok-injective (ap (λ p. p.0) e)) (ap (λ p. p.1) e) h
commit-ok P (err x) db after a h e = cc (ap (λ p. p.0) e)

-- A call that repeats a successful `reserve`, under the same owner and key but with any id and any
-- amount, returns the same reservation and holds nothing twice: every table is unchanged.
reserve_twice :
    (id id' : String) (args args' : ReserveArgs) (db db' : Db) (r : ReservationRow)
    → args'.owner_id ≡ args.owner_id
    → args'.idempotency_key ≡ args.idempotency_key
    → reserve id args db ≡ (ok r, db')
    → reserve id' args' db' ≡ (ok r, db')
unfolding reserve reserve_tx reserve_locked hold_once
reserve_twice id id' args args' db db' r owner key first =
    let (keyed, (a, acc, live)) =
      commit-ok (Holds args.owner_id args.idempotency_key) (reserve_tx id args db) db db' r
        (reserve_tx-Holds id args db) first in
    let acc' : db'.accounts args'.owner_id ≡ some a = cc in
    let keyed' : find_by_key args'.owner_id args'.idempotency_key db'.reservations ≡ some r = cc in
    rw (acc', commit, ◌>>=◌) (rw (live, commit, ◌>>=◌) (rw (keyed', commit, ◌>>=◌) refl))
