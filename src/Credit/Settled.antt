-- ===== src/Credit/Settled.antt =====
-- A reservation is settled once: whatever is called afterwards, its row stays as it is, and to
-- finalize or release it again does nothing.
use arivion.Prelude.{String, ℤ, ◌≡◌, refl, true, false, some, List, [], ◌∷◌, arith, eq_iff}
use arivion.Credit.Db.{ReservationRow, Db, ok, find_by_id, update_by_id, ◌>>=◌, commit}
use arivion.Credit.Ledger.{GrantConfig}
use arivion.Credit.Reservation.{
  is_reserved, mark_finalized, mark_released, finalize, release, finalize_tx, release_tx,
  finalize_found, release_found,
}
use arivion.Credit.Request.{Call}
use arivion.Credit.Calls.{run_calls}
use arivion.Credit.Moves.{Move, opened, granted, held, settled, returned, Moves, here, next}
use arivion.Credit.Committed.{run_calls-Moves}

-- An update of an open row does not touch a settled one.
find_by_id-update_by_id :
    (f : ReservationRow → ReservationRow)
    → ((x : ReservationRow) → (f x).id ≡ x.id)
    → (id id' : String) (rs : List ReservationRow) (r r' : ReservationRow)
    → find_by_id id rs ≡ some r
    → is_reserved r.status ≡ false
    → find_by_id id' rs ≡ some r'
    → is_reserved r'.status ≡ true
    → find_by_id id (update_by_id id' f rs) ≡ some r
unfolding find_by_id update_by_id
find_by_id-update_by_id f keeps id id' [] r r' h done h' live = cc
find_by_id-update_by_id f keeps id id' (x ∷ rs) r r' h done h' live =
    ground (arith, keeps x, find_by_id-update_by_id f keeps id id' rs r r')

module _ (id : String) (r : ReservationRow) (done : is_reserved r.status ≡ false) where
  Move-settled :
      {db after : Db}
      → Move db after
      → find_by_id id db.reservations ≡ some r
      → find_by_id id after.reservations ≡ some r
  unfolding find_by_id
  Move-settled (opened owner missing) h = h
  Move-settled (granted owner key amount reason a acc) h = h
  Move-settled (held x a acc new covered new_id new_key) h = ground (arith, eq_iff x.id id)
  Move-settled {db} (settled x charge a acc found live le) h =
      find_by_id-update_by_id (mark_finalized charge) (λ y. refl) id x.id db.reservations r x h done
        found live
  Move-settled {db} (returned x reason a acc found live) h =
      find_by_id-update_by_id mark_released (λ y. refl) id x.id db.reservations r x h done found
        live

  Moves-settled :
      {db after : Db}
      → Moves db after
      → find_by_id id db.reservations ≡ some r
      → find_by_id id after.reservations ≡ some r
  Moves-settled here h = h
  Moves-settled (next p m) h = Move-settled m (Moves-settled p h)

  finalize_settled :
      (actual : ℤ) (db : Db)
      → find_by_id id db.reservations ≡ some r
      → finalize id actual db ≡ (ok tt, db)
  unfolding finalize finalize_tx finalize_found
  finalize_settled actual db h = rw (h, commit, ◌>>=◌) (rw (done, commit) refl)

  release_settled :
      (reason : String) (db : Db)
      → find_by_id id db.reservations ≡ some r
      → release id reason db ≡ (ok tt, db)
  unfolding release release_tx release_found
  release_settled reason db h = rw (h, commit, ◌>>=◌) (rw (done, commit) refl)

  -- Once a reservation is finalized or released, then after any further calls its row is the same,
  -- and `finalize` and `release` of it return with every table unchanged.
  pub settled_once :
      (config : GrantConfig) (cs : List Call) (actual : ℤ) (reason : String) (db : Db)
      → find_by_id id db.reservations ≡ some r
      → let db' = run_calls config cs db in
        (find_by_id id db'.reservations ≡ some r)
        × (finalize id actual db' ≡ (ok tt, db'))
        × (release id reason db' ≡ (ok tt, db'))
  settled_once config cs actual reason db h =
      let kept = Moves-settled (run_calls-Moves config cs db) h in
      let db' = run_calls config cs db in
      (kept, finalize_settled actual db' kept, release_settled reason db' kept)
