-- ===== src/Credit/Replay.antt =====
-- The idempotency of `complete` (llm-gateway/index.ts): a key that was answered once is never charged
-- again.
use arivion.Prelude.{
  ℕ, String, ◌≡◌, refl, Bool, true, false, Option, none, some, arith, eq_iff, ltb, Bool-cases,
  Option-cases, inl, inr,
}
use mathlib.Core.Path.{subst}
use arivion.Credit.Types.{
  NormalizedUsage, MeteringQuality, actual, estimated, PriceRow, CompleteRequest, GatewayError,
}
use arivion.Credit.Db.{UsageEventRow, Db, Result, ok, err, and_then}
use arivion.Credit.Ledger.{ensure_account}
use arivion.Credit.Reservation.{reserve}
use arivion.Credit.Gateway.{
  GatewayConfig, ProviderOutcome, response, throws, CompleteResult, is_managed, is_timeout,
  find_usage, record_usage, finalize_if, release_if, meter, refund_and_throw,
  handle_execute_failure, execute_and_meter, complete_managed, complete_new, request_error,
  complete, expected_usage, usage_event, catch_meter, step_cap_micro, max_output_of, estimate_of,
}

-- After a call that returned, the usage event of its key is there.
abbrev IsRecorded : CompleteRequest → Result CompleteResult × Db → Type 0
IsRecorded req (ok _, db) =
    (u : UsageEventRow) × (find_usage req.owner_id req.idempotency_key db.usage_events ≡ some u)
IsRecorded req (err _, db) = Unit

find_usage-record_usage :
    (u : UsageEventRow) (db : Db)
    → (x : UsageEventRow) × (find_usage u.owner_id u.idempotency_key
          (record_usage u db).usage_events
        ≡ some x)
unfolding record_usage find_usage
find_usage-record_usage u db =
    elim (Option-cases (find_usage u.owner_id u.idempotency_key db.usage_events)) [
      | inr (x, e) ↦ (x, rw (e, record_usage) e)
      | inl e ↦
          (u, rw (e, record_usage) (ground (arith, eq_iff u.idempotency_key u.idempotency_key)))
    ]

and_then-IsRecorded :
    {A : Type 0} (req : CompleteRequest) (r : Result A × Db)
    (k : A → Db → Result CompleteResult × Db)
    → ((a : A) (db : Db) → IsRecorded req (k a db))
    → IsRecorded req (and_then r k)
and_then-IsRecorded req (ok a, db) k h = h a db
and_then-IsRecorded req (err e, db) k h = tt

module _ (req : CompleteRequest) (reservation : Option String) (price : Option PriceRow)
    (max_output_tokens estimate : ℕ) where
  meter-IsRecorded :
      (usage : NormalizedUsage) (quality : MeteringQuality) (status : String) (succeeded : Bool)
      (db : Db)
      → IsRecorded req (meter req reservation price estimate usage quality status succeeded db)
  unfolding meter
  meter-IsRecorded usage quality status succeeded db =
      and_then-IsRecorded req (finalize_if reservation _ db) _
        (λ _ db1. find_usage-record_usage (usage_event req usage _ _ quality status) db1)

  handle_execute_failure-IsRecorded :
      (e : GatewayError) (db : Db)
      → IsRecorded req
          (handle_execute_failure req reservation price max_output_tokens estimate e db)
  unfolding handle_execute_failure refund_and_throw
  handle_execute_failure-IsRecorded e db = elim (Bool-cases (is_timeout e)) [
    | inl late ↦
        rw late
          (meter-IsRecorded (expected_usage req max_output_tokens) estimated "timeout" false db)
    | inr other ↦ rw other (and_then-IsRecorded req (release_if reservation db) _ (λ _ db1. tt))
  ]

  execute_and_meter-IsRecorded :
      (outcome : ProviderOutcome) (db : Db)
      → IsRecorded req
          (execute_and_meter req reservation price max_output_tokens estimate outcome db)
  unfolding execute_and_meter
  execute_and_meter-IsRecorded (throws e) db = handle_execute_failure-IsRecorded e db
  execute_and_meter-IsRecorded (response usage) db =
      caught (meter req reservation price estimate usage actual "ok" true db)
        (meter-IsRecorded usage actual "ok" true db)
    where
      caught :
          (r : Result CompleteResult × Db)
          → IsRecorded req r
          → IsRecorded req (catch_meter req reservation price max_output_tokens estimate r)
      caught (ok result, db') h = h
      caught (err e, db') h = handle_execute_failure-IsRecorded e db'

complete_managed-IsRecorded :
    (config : GatewayConfig) (price : Option PriceRow) (uuid : String) (outcome : ProviderOutcome)
    (req : CompleteRequest) (db : Db)
    → IsRecorded req (complete_managed config price uuid outcome req db)
unfolding complete_managed
complete_managed-IsRecorded config none uuid outcome req db =
    and_then-IsRecorded req (ensure_account config.grant_config req.owner_id db) _ (λ _ db1. tt)
complete_managed-IsRecorded config (some price) uuid outcome req db =
    and_then-IsRecorded req (ensure_account config.grant_config req.owner_id db) _ (λ _ db1.
      let max_output_tokens = max_output_of config req in
      let estimate = estimate_of req max_output_tokens (some price) in
      elim (Bool-cases (ltb (step_cap_micro config req.max_cost_micro_usd) estimate)) [
        | inl over ↦ rw over tt
        | inr within ↦ rw within (
            and_then-IsRecorded req (reserve uuid _ db1) _ (λ r db2.
              execute_and_meter-IsRecorded req (some r.id) (some price) max_output_tokens estimate
                outcome db2))
      ])

complete-IsRecorded :
    (config : GatewayConfig) (price : Option PriceRow) (uuid : String) (outcome : ProviderOutcome)
    (req : CompleteRequest) (db : Db)
    → IsRecorded req (complete config price uuid outcome req db)
unfolding complete complete_new
complete-IsRecorded config price uuid outcome req db =
    elim (Option-cases (request_error config req)) [
      | inr (e, bad) ↦ rw (bad, complete) tt
      | inl good ↦
          rw (good, complete)
            (elim (Option-cases (find_usage req.owner_id req.idempotency_key db.usage_events)) [
              | inr (prior, seen) ↦ rw (seen, complete_new) (prior, seen)
              | inl new ↦
                  rw (new, complete_new)
                    (elim (Bool-cases (is_managed req.provider_mode)) [
                      | inl credit ↦
                          rw credit (complete_managed-IsRecorded config price uuid outcome req db)
                      | inr own_key ↦ rw own_key (
                          execute_and_meter-IsRecorded req none price (max_output_of config req)
                            (estimate_of req (max_output_of config req) price) outcome db)
                    ])
            ])
    ]

recorded_once :
    (config : GatewayConfig) (price : Option PriceRow) (uuid : String) (outcome : ProviderOutcome)
    (req : CompleteRequest) (db : Db) (prior : UsageEventRow)
    → find_usage req.owner_id req.idempotency_key db.usage_events ≡ some prior
    → (complete config price uuid outcome req db).1 ≡ db
unfolding complete complete_new
recorded_once config price uuid outcome req db prior seen =
    elim (Option-cases (request_error config req)) [
      | inr (e, bad) ↦ rw (bad, complete) refl
      | inl good ↦ rw (good, complete) (rw (seen, complete_new) refl)
    ]

-- Once `complete` has returned, any call with the same owner and the same key, whatever else it asks,
-- whatever the price is by then and whatever the provider would answer, changes no table.
pub complete_twice :
    (config : GatewayConfig) (price price' : Option PriceRow) (uuid uuid' : String)
    (outcome outcome' : ProviderOutcome) (req req' : CompleteRequest) (db db' : Db)
    (result : CompleteResult)
    → req'.owner_id ≡ req.owner_id
    → req'.idempotency_key ≡ req.idempotency_key
    → complete config price uuid outcome req db ≡ (ok result, db')
    → (complete config price' uuid' outcome' req' db').1 ≡ db'
complete_twice config price price' uuid uuid' outcome outcome' req req' db db' result owner key
      first =
    let (prior, seen) =
      subst (IsRecorded req) first (complete-IsRecorded config price uuid outcome req db) in
    recorded_once config price' uuid' outcome' req' db' prior cc
