-- ===== src/Credit/Completion.antt =====
-- `complete` (llm-gateway/index.ts) keeps the books on every path.
use arivion.Prelude.{Option-cases, inl, inr}
use arivion.Credit.Db.{UsageEventRow, Db, Result, ok, err, and_then}
use arivion.Credit.Books.{Books}
use arivion.Credit.Gateway.{find_usage, record_usage}

pub and_then_keeps :
    {A B : Type 0} (P : Db → Type 0) (r : Result A × Db) (k : A → Db → Result B × Db)
    → P r.1
    → ((a : A) (db : Db) → P db → P (k a db).1)
    → P (and_then r k).1
and_then_keeps P (ok a, db) k h keep = keep a db h
and_then_keeps P (err e, db) k h keep = h

pub record_usage-Books : (u : UsageEventRow) (db : Db) → Books db → Books (record_usage u db)
unfolding record_usage
record_usage-Books u db b =
    elim (Option-cases (find_usage u.owner_id u.idempotency_key db.usage_events)) [
      | inr (x, e) ↦ rw (e, record_usage) b
      | inl e ↦ rw (e, record_usage) (record { posted = b.posted; split = b.split })
    ]
