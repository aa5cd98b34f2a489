-- ===== src/Backfill/Jobs.antt =====
-- What the worker of lib/backfillQueue.ts leaves in the row of a job.
use arivion.Prelude.{
  ℕ, ◌+◌, ◌≡◌, refl, Bool, true, false, Option, none, some, str_eq_refl, ◌==◌, ltb_of_lt, arith,
}
use arivion.Backfill.{
  BackfillJobPayload, JobKey, schedule_key, scheduled_job, other_job, is_key, JobStatus, completed,
  failed, Checkpoint, no_checkpoint, QueueRow, BackfillDb, persist_queue_state, Reply, replied,
  failed_reply, run_job,
}

number_self : (n : ℕ) → (n == n) ≡ true
number_self n = ground arith

is_key_self : (k : JobKey) → is_key k k ≡ true
unfolding is_key
is_key_self (schedule_key a) = str_eq_refl a
is_key_self (scheduled_job a n) = rw (str_eq_refl a) (number_self n)
is_key_self (other_job a) = str_eq_refl a

abbrev status_of : Reply → JobStatus
status_of (replied c) = completed
status_of failed_reply = failed

abbrev checkpoint_of : Reply → Checkpoint
checkpoint_of (replied c) = c
checkpoint_of failed_reply = no_checkpoint

abbrev is_failure : Reply → Bool
is_failure (replied c) = false
is_failure failed_reply = true

abbrev pub Records : Reply → ℕ → Option QueueRow → Type 0
Records reply attempts_made none = ⊥
Records reply attempts_made (some row) =
    (row.status ≡ status_of reply)
    × (row.attempt_count ≡ attempts_made + 1)
    × (row.checkpoint ≡ checkpoint_of reply)
    × (row.has_error ≡ is_failure reply)

-- However a job ends, its row says so: completed or failed, with the number of the attempt, whether
-- there was an error, and the checkpoint of the reply, which is empty after a failure, whatever it
-- was before. No other row changes. Condition: the job has a row, as one that was enqueued has.
pub job_recorded :
    (db_now attempts_made : ℕ) (key other : JobKey) (payload : BackfillJobPayload) (reply : Reply)
    (row : QueueRow) (db : BackfillDb)
    → db.states key ≡ some row
    → is_key key other ≡ false
    → Records reply attempts_made ((run_job db_now key payload attempts_made reply db).1.states key)
      × ((run_job db_now key payload attempts_made reply db).1.states other ≡ db.states other)
unfolding run_job persist_queue_state
job_recorded db_now attempts_made key other payload (replied c) row db here apart =
    rw (is_key_self key, here, apart, ltb_of_lt 0 (attempts_made + 1) (omega arith))
      ((refl, refl, refl, refl), refl)
job_recorded db_now attempts_made key other payload failed_reply row db here apart =
    rw (is_key_self key, here, apart, ltb_of_lt 0 (attempts_made + 1) (omega arith))
      ((refl, refl, refl, refl), refl)
