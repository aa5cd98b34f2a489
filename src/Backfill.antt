-- ===== src/Backfill.antt =====
-- lib/backfillQueue.ts of apps/api/src: the rows of backfill_queue_state, the jobs and the schedules.
-- What `queue.add` does is an argument, by the number of the call; so is the reply of the ingestor.
-- Times are milliseconds; `db_now` is the clock of the database. Error texts are not modelled.
use arivion.Prelude.{
  ℕ, zero, suc, ◌+◌, ◌-◌, ◌*◌, ◌/◌, max, String, Bool, true, false, not, ◌&&◌, Option, none, some,
  List, [], ◌∷◌, length, str_eq, ◌==◌, ltb, if◌then◌else◌,
}
pub mod Once
pub mod Jobs

pub data Endpoint : Type 0 where
  kline funding oi long_short instruments : Endpoint

pub record BackfillJobPayload : Type 0 where
  pub endpoint : Endpoint
  pub category : Option String
  pub symbol : Option String
  pub interval : Option String
  pub start_ms : Option ℕ
  pub end_ms : Option ℕ
  pub data_version : Option String
  pub schedule_id : Option String

-- The texts that name jobs: `sched_<id>`, `bf_sched_<id>_<bucket>`, and `bf_<uuid>` or a given one.
pub data JobKey : Type 0 where
  schedule_key : String → JobKey
  scheduled_job : String → ℕ → JobKey
  other_job : String → JobKey

unfoldable pub is_key : JobKey → JobKey → Bool
is_key (schedule_key a) (schedule_key b) = str_eq a b
is_key (scheduled_job a n) (scheduled_job b m) = str_eq a b && n == m
is_key (other_job a) (other_job b) = str_eq a b
is_key _ _ = false

pub data JobStatus : Type 0 where
  queued running completed failed : JobStatus

-- `checkpoint_json`: `{}`, a cadence bucket, or what the ingestor replied
pub data Checkpoint : Type 0 where
  no_checkpoint : Checkpoint
  cadence_bucket : ℕ → Checkpoint
  ingestor_checkpoint : ℕ → Checkpoint

pub record QueueRow : Type 0 where
  pub payload : BackfillJobPayload
  pub status : JobStatus
  pub checkpoint : Checkpoint
  pub attempt_count : ℕ
  pub has_error : Bool
  pub next_run_at : Option ℕ
  pub updated_at : ℕ

pub record Patch : Type 0 where
  pub attempt_count : ℕ
  pub checkpoint : Checkpoint
  pub has_error : Bool
  pub next_run_at : Option ℕ

abbrev pub no_patch : Patch
no_patch = record {
  attempt_count = 0;
  checkpoint = no_checkpoint;
  has_error = false;
  next_run_at = none;
}

-- the table, and the calls of `queue.add` that were made, the last one first
pub record BackfillDb : Type 0 where
  pub states : JobKey → Option QueueRow
  pub added : List (JobKey × BackfillJobPayload)

-- the row that is inserted, or the row that `ON CONFLICT` updates
abbrev pub upserted : ℕ → BackfillJobPayload → JobStatus → Patch → Option QueueRow → QueueRow
upserted db_now payload status patch none = record {
  payload = payload;
  status = status;
  checkpoint = no_checkpoint;
  attempt_count = 0;
  has_error = false;
  next_run_at = none;
  updated_at = db_now;
}
upserted db_now payload status patch (some row) = record {
  payload = payload;
  status = status;
  checkpoint = patch.checkpoint;
  attempt_count = if ltb 0 patch.attempt_count then patch.attempt_count else row.attempt_count;
  has_error = patch.has_error;
  next_run_at = patch.next_run_at;
  updated_at = db_now;
}

unfoldable pub persist_queue_state :
    ℕ → JobKey → BackfillJobPayload → JobStatus → Patch → BackfillDb → BackfillDb
unfolding is_key
persist_queue_state db_now key payload status patch db = record db {
  states = λ k.
      if is_key key k
      then some (upserted db_now payload status patch (db.states k))
      else db.states k;
}

-- how `queue.add` ends
pub data AddOutcome : Type 0 where
  added already_exists add_failed : AddOutcome

pub data Returned (A : Type 0) : Type 0 where
  done : A → Returned A
  threw : Returned A

abbrev pub after_add :
    ℕ → JobKey → BackfillJobPayload → AddOutcome → BackfillDb → Returned JobKey × BackfillDb
after_add db_now key payload added db =
    (done key, persist_queue_state db_now key payload queued no_patch db)
after_add db_now key payload already_exists db =
    (done key, persist_queue_state db_now key payload queued no_patch db)
after_add db_now key payload add_failed db = (threw, db)

-- with the job id resolved
unfoldable pub enqueue_backfill_job :
    (ℕ → AddOutcome) → ℕ → JobKey → BackfillJobPayload → BackfillDb → Returned JobKey × BackfillDb
unfolding persist_queue_state
enqueue_backfill_job add db_now key payload db =
    after_add db_now key payload (add (length db.added))
      (record db { added = (key, payload) ∷ db.added })

-- the reply of the ingestor, with its checkpoint; anything else throws
pub data Reply : Type 0 where
  replied : Checkpoint → Reply
  failed_reply : Reply

abbrev after_reply :
    ℕ → JobKey → BackfillJobPayload → ℕ → Reply → BackfillDb → Returned Checkpoint × BackfillDb
after_reply db_now key payload attempts_made (replied c) db = (
  done c,
  persist_queue_state db_now key payload completed (record no_patch { checkpoint = c }) db,
)
after_reply db_now key payload attempts_made failed_reply db = (
  threw,
  persist_queue_state db_now key payload failed
      (record no_patch { attempt_count = attempts_made + 1; has_error = true }) db,
)

-- the worker's handler of a job
unfoldable pub run_job :
    ℕ → JobKey → BackfillJobPayload → ℕ → Reply → BackfillDb → Returned Checkpoint × BackfillDb
unfolding persist_queue_state
run_job db_now key payload attempts_made reply db =
    after_reply db_now key payload attempts_made reply (
      persist_queue_state db_now key payload running
        (record no_patch { attempt_count = attempts_made + 1 }) db)

-- a word of a cron text: `*`, `*/n`, `0`, or any other
pub data CronField : Type 0 where
  star : CronField
  every : ℕ → CronField
  nought : CronField
  other_field : CronField

-- `cadenceMsFromCron`, of the words of the text
unfoldable pub cadence_ms_from_cron : List CronField → ℕ
cadence_ms_from_cron (every n ∷ star ∷ star ∷ star ∷ star ∷ []) = max 1 n * 60000
cadence_ms_from_cron (nought ∷ every n ∷ star ∷ star ∷ star ∷ []) = max 1 n * 3600000
cadence_ms_from_cron (nought ∷ nought ∷ star ∷ star ∷ star ∷ []) = 86400000
cadence_ms_from_cron _ = 1800000

pub record Schedule : Type 0 where
  pub schedule_id : String
  pub endpoint : Endpoint
  pub symbol : String
  pub category : String
  pub interval : String
  pub cadence_cron : List CronField
  pub lookback_ms : ℕ
  pub data_version : Option String
  pub enabled : Bool

-- `lastEnqueuedMs > 0 && nowMs - lastEnqueuedMs < cadenceMs` fails
abbrev pub is_due : ℕ → ℕ → Option QueueRow → Bool
is_due now cadence none = true
is_due now cadence (some row) = not (ltb 0 row.updated_at && ltb now (row.updated_at + cadence))

abbrev pub or_v1 : Option String → String
or_v1 none = "v1"
or_v1 (some v) = v

abbrev pub payload_of : ℕ → Schedule → BackfillJobPayload
payload_of now row = record {
  endpoint = row.endpoint;
  category = some row.category;
  symbol = some row.symbol;
  interval = some row.interval;
  start_ms = some (now - row.lookback_ms);
  end_ms = some now;
  data_version = some (or_v1 row.data_version);
  schedule_id = some row.schedule_id;
}

module _ (add : ℕ → AddOutcome) (now db_now : ℕ) where
  abbrev pub mark_schedule :
      Schedule → ℕ → Returned JobKey × BackfillDb → Returned (Unit {0}) × BackfillDb
  mark_schedule row cadence (threw, db) = (threw, db)
  mark_schedule row cadence (done key, db) = (
    done tt,
    persist_queue_state db_now (schedule_key row.schedule_id) (payload_of now row) queued
        (record no_patch {
          next_run_at = some (now + cadence);
          checkpoint = cadence_bucket (now / cadence);
        })
        db,
  )

  -- a schedule that is due
  unfoldable pub enqueue_schedule : Schedule → BackfillDb → Returned (Unit {0}) × BackfillDb
  unfolding cadence_ms_from_cron enqueue_backfill_job
  enqueue_schedule row db =
      let cadence = cadence_ms_from_cron row.cadence_cron in
      mark_schedule row cadence (
        enqueue_backfill_job add db_now (scheduled_job row.schedule_id (now / cadence))
          (payload_of now row) db)

  abbrev pub counted :
      ℕ
      → Returned (Unit {0}) × BackfillDb
      → (BackfillDb → Returned ℕ × BackfillDb)
      → Returned ℕ × BackfillDb
  counted count (threw, db) rest = (threw, db)
  counted count (done u, db) rest = rest db

  -- the loop over the rows, each with the row of its schedule as the query read it
  unfoldable pub enqueue_loop :
      List (Schedule × Option QueueRow) → ℕ → BackfillDb → Returned ℕ × BackfillDb
  unfolding enqueue_schedule
  enqueue_loop [] count db = (done count, db)
  enqueue_loop ((row, last) ∷ rows) count db =
      let rest = λ (n : ℕ) (d : BackfillDb). enqueue_loop rows n d in
      if is_due now (cadence_ms_from_cron row.cadence_cron) last
      then counted count (enqueue_schedule row db) (rest (suc count))
      else rest count db

  -- the query: the enabled schedules, joined to the rows of their keys
  abbrev pub due_rows : BackfillDb → List Schedule → List (Schedule × Option QueueRow)
  due_rows db [] = []
  due_rows db (s ∷ schedules) =
      if s.enabled
      then (s, db.states (schedule_key s.schedule_id)) ∷ due_rows db schedules
      else due_rows db schedules

  unfoldable pub enqueue_due_schedules : List Schedule → BackfillDb → Returned ℕ × BackfillDb
  unfolding enqueue_loop
  enqueue_due_schedules schedules db = enqueue_loop (due_rows db schedules) 0 db
