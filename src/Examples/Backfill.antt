-- ===== src/Examples/Backfill.antt =====
-- The theorems of Backfill, at two schedules and at a job that fails.
use arivion.Prelude.{ℕ, ◌+◌, ◌<◌, ◌≡◌, refl, true, false, none, some, List, [], ◌∷◌, length, arith}
use arivion.Backfill.{
  kline, funding, BackfillJobPayload, JobKey, schedule_key, other_job, is_key, queued, QueueRow,
  BackfillDb, AddOutcome, added, cadence_bucket, failed_reply, run_job, star, every, nought,
  cadence_ms_from_cron, Schedule, payload_of, done, due_rows, enqueue_due_schedules,
}
use arivion.Backfill.Once.{with_jobs, due_once}
use arivion.Backfill.Jobs.{Records, job_recorded}

abbrev candles : Schedule
candles = record {
  schedule_id = "candles";
  endpoint = kline;
  symbol = "BTCUSDT";
  category = "linear";
  interval = "15";
  cadence_cron = every 30 ∷ star ∷ star ∷ star ∷ star ∷ [];
  lookback_ms = 7200000;
  data_version = none;
  enabled = true;
}

abbrev rates : Schedule
rates = record candles {
  schedule_id = "rates";
  endpoint = funding;
  cadence_cron = nought ∷ every 8 ∷ star ∷ star ∷ star ∷ [];
}

abbrev off : Schedule
off = record candles { schedule_id = "off"; enabled = false }

abbrev all : List Schedule
all = candles ∷ off ∷ rates ∷ []

abbrev no_jobs : BackfillDb
no_jobs = record { states = λ k. none; added = [] }

abbrev works : ℕ → AddOutcome
works call = added

abbrev passed : BackfillDb
passed = (enqueue_due_schedules works 9000000 9000100 all no_jobs).1

two_enqueued : enqueue_due_schedules works 9000000 9000100 all no_jobs ≡ (done 2, passed)
unfolding enqueue_due_schedules
two_enqueued = refl

both_soon :
    (9060000 < 9000100 + cadence_ms_from_cron candles.cadence_cron)
    × (9060000 < 9000100 + cadence_ms_from_cron off.cadence_cron)
    × (9060000 < 9000100 + cadence_ms_from_cron rates.cadence_cron)
unfolding cadence_ms_from_cron
both_soon = omega arith

due_once_example :
    (2 ≡ length (due_rows works 9000000 9000100 no_jobs all))
    × (passed.added ≡ with_jobs 9000000 all [])
    × (length passed.added ≡ length no_jobs.added + 2)
    × (enqueue_due_schedules works 9060000 9060100 all passed ≡ (done 0, passed))
due_once_example =
    due_once works works 9000000 9000100 9060000 9060100 no_jobs passed all 2 (omega arith)
      (refl, (refl, tt)) (both_soon.0, (both_soon.1, (both_soon.2, tt))) two_enqueued

abbrev job : JobKey
job = other_job "bf_1"

abbrev payload : BackfillJobPayload
payload = payload_of 9000000 candles

abbrev queued_row : QueueRow
queued_row = record {
  payload = payload;
  status = queued;
  checkpoint = cadence_bucket 3;
  attempt_count = 1;
  has_error = false;
  next_run_at = none;
  updated_at = 5;
}

abbrev one_job : BackfillDb
one_job = record { states = λ k. some queued_row; added = [] }

apart : is_key job (schedule_key "candles") ≡ false
unfolding is_key
apart = refl

job_recorded_example :
    Records failed_reply 1 ((run_job 7 job payload 1 failed_reply one_job).1.states job)
    × ((run_job 7 job payload 1 failed_reply one_job).1.states (schedule_key "candles")
        ≡ some queued_row)
job_recorded_example =
    job_recorded 7 1 job (schedule_key "candles") payload failed_reply queued_row one_job refl apart
