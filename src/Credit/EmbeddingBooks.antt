-- ===== src/Credit/EmbeddingBooks.antt =====
-- `embedText` (llm-gateway/index.ts) keeps the books on every path.
use arivion.Prelude.{ℕ, String, Option, none, some, Bool-cases, inl, inr}
use arivion.Credit.Types.{PriceRow, GatewayError}
use arivion.Credit.Db.{Db, Result, ok, err}
use arivion.Credit.Ledger.{ensure_account}
use arivion.Credit.Reservation.{reserve, finalize, release}
use arivion.Credit.Committed.{ensure_account-Moves, reserve-Moves, finalize-Moves, release-Moves}
use arivion.Credit.Books.{Books, Moves-Books}
use arivion.Credit.Gateway.{GatewayConfig, is_allowlisted}
use arivion.Credit.Completion.{and_then_keeps, record_usage-Books}
use arivion.Credit.Embedding.{
  EmbedRequest, EmbedOutcome, EmbedResult, release_and_throw, catch_embed, embed_and_meter,
  embed_priced, embed_text,
}

release_and_throw-Books :
    (id : String) (e : GatewayError) (db : Db) → Books db → Books (release_and_throw id e db).1
unfolding release_and_throw
release_and_throw-Books id e db b =
    and_then_keeps Books (release id "EMBED_ERROR" db) _
      (Moves-Books (release-Moves id "EMBED_ERROR" db) b) (λ _ db1 b1. b1)

catch_embed-Books :
    (id : String) (r : Result EmbedResult × Db) → Books r.1 → Books (catch_embed id r).1
catch_embed-Books id (ok result, db) b = b
catch_embed-Books id (err e, db) b = release_and_throw-Books id e db b

embed_and_meter-Books :
    (req : EmbedRequest) (key : String) (price : PriceRow) (estimate : ℕ) (id : String)
    (outcome : EmbedOutcome) (db : Db)
    → Books db
    → Books (embed_and_meter req key price estimate id outcome db).1
unfolding embed_and_meter
embed_and_meter-Books req key price estimate id (EmbedOutcome.fails e) db b =
    release_and_throw-Books id e db b
embed_and_meter-Books req key price estimate id (EmbedOutcome.embedded tokens) db b =
    catch_embed-Books id _ (
      and_then_keeps Books (finalize id _ db) _ (Moves-Books (finalize-Moves id _ db) b)
        (λ _ db1 b1. record_usage-Books _ db1 b1))

embed_priced-Books :
    (price : Option PriceRow) (key uuid : String) (outcome : EmbedOutcome) (req : EmbedRequest)
    (db : Db)
    → Books db
    → Books (embed_priced price key uuid outcome req db).1
unfolding embed_priced
embed_priced-Books none key uuid outcome req db b = b
embed_priced-Books (some price) key uuid outcome req db b =
    and_then_keeps Books (reserve uuid _ db) _ (Moves-Books (reserve-Moves uuid _ db) b)
      (λ r db1 b1. embed_and_meter-Books req key price _ r.id outcome db1 b1)

-- If for every owner the ledger adds up to the balance and the grants are the balance, the open holds
-- and the spend together, then both hold after `embedText`, whatever the provider answers or throws,
-- and whether `embedText` returns or throws.
embed_text-Books :
    (config : GatewayConfig) (price : Option PriceRow) (key uuid : String) (outcome : EmbedOutcome)
    (req : EmbedRequest) (db : Db)
    → Books db
    → Books (embed_text config price key uuid outcome req db).1
unfolding embed_text
embed_text-Books config price key uuid outcome req db b =
    elim (Bool-cases (is_allowlisted req.provider)) [
      | inr bad ↦ rw bad b
      | inl good ↦ rw good (
          and_then_keeps Books (ensure_account config.grant_config req.owner_id db) _
            (Moves-Books (ensure_account-Moves config.grant_config req.owner_id db) b)
            (λ _ db1 b1. embed_priced-Books price key uuid outcome req db1 b1))
    ]
