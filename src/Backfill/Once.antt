-- ===== src/Backfill/Once.antt =====
-- Schedules that are due are enqueued once, over two passes of enqueueDueSchedules
-- (lib/backfillQueue.ts).
use arivion.Prelude.{
  String, ℕ, suc, ◌+◌, ◌-◌, ◌/◌, ap, ◌∙◌, if◌then◌else◌, ◌<◌, ◌≡◌, refl, true, false, Option, none,
  some, List, [], ◌∷◌, All, count, length, Bool-cases, if-case, ltb_of_lt, str_eq_refl, inl, inr,
  arith,
}
use mathlib.Core.Path.{subst}
use arivion.Backfill.{
  BackfillJobPayload, JobKey, schedule_key, scheduled_job, or_v1, is_key, JobStatus, queued,
  no_patch, QueueRow, Patch, BackfillDb, upserted, persist_queue_state, AddOutcome, added,
  already_exists, add_failed, Returned, done, threw, after_add, mark_schedule, counted,
  cadence_ms_from_cron, Schedule, is_due, enqueue_schedule, enqueue_backfill_job, enqueue_loop,
  due_rows, enqueue_due_schedules,
}

-- The row was written at that time of the database.
abbrev IsFresh : ℕ → Option QueueRow → Type 0
IsFresh db_now none = ⊥
IsFresh db_now (some row) = row.updated_at ≡ db_now

upserted-IsFresh :
    (db_now : ℕ) (payload : BackfillJobPayload) (status : JobStatus) (patch : Patch)
    (o : Option QueueRow)
    → IsFresh db_now (some (upserted db_now payload status patch o))
upserted-IsFresh db_now payload status patch none = refl
upserted-IsFresh db_now payload status patch (some row) = refl

persist-IsFresh :
    (db_now : ℕ) (key k : JobKey) (payload : BackfillJobPayload) (status : JobStatus)
    (patch : Patch) (db : BackfillDb)
    → IsFresh db_now (db.states k)
    → IsFresh db_now ((persist_queue_state db_now key payload status patch db).states k)
unfolding persist_queue_state
persist-IsFresh db_now key k payload status patch db fresh =
    if-case (IsFresh db_now) (is_key key k) _ _
      (λ same. upserted-IsFresh db_now payload status patch (db.states k)) (λ other. fresh)

marked_row :
    (db_now : ℕ) (id : String) (payload : BackfillJobPayload) (status : JobStatus) (patch : Patch)
    (db : BackfillDb)
    → IsFresh db_now (
        (persist_queue_state db_now (schedule_key id) payload status patch db).states
          (schedule_key id))
unfolding persist_queue_state is_key
marked_row db_now id payload status patch db =
    rw (str_eq_refl id) (upserted-IsFresh db_now payload status patch (db.states (schedule_key id)))

abbrev Job : Type 0
Job = JobKey × BackfillJobPayload

-- The job of a schedule is named for the schedule and for the bucket of its cadence; it asks for the
-- data of the lookback that ends now.
abbrev job_of : ℕ → Schedule → Job
job_of now s = (
  scheduled_job s.schedule_id (now / cadence_ms_from_cron s.cadence_cron),
  record {
    endpoint = s.endpoint;
    category = some s.category;
    symbol = some s.symbol;
    interval = some s.interval;
    start_ms = some (now - s.lookback_ms);
    end_ms = some now;
    data_version = some (or_v1 s.data_version);
    schedule_id = some s.schedule_id;
  },
)

-- the jobs of the enabled schedules, in their order, in front of those added before
abbrev pub with_jobs : ℕ → List Schedule → List Job → List Job
with_jobs now [] jobs = jobs
with_jobs now (s ∷ schedules) jobs =
    with_jobs now schedules (if s.enabled then job_of now s ∷ jobs else jobs)

abbrev with_row_jobs : ℕ → List (Schedule × Option QueueRow) → List Job → List Job
with_row_jobs now [] jobs = jobs
with_row_jobs now ((s, last) ∷ rows) jobs = with_row_jobs now rows (job_of now s ∷ jobs)

length-with_row_jobs :
    (now : ℕ) (rows : List (Schedule × Option QueueRow)) (jobs : List Job)
    → length (with_row_jobs now rows jobs) ≡ length jobs + length rows
length-with_row_jobs now [] jobs = omega arith
length-with_row_jobs now ((s, last) ∷ rows) jobs =
    omega (arith, length-with_row_jobs now rows (job_of now s ∷ jobs))

module _ (add : ℕ → AddOutcome) (now db_now : ℕ) where
  with_row_jobs-due_rows :
      (db : BackfillDb) (schedules : List Schedule) (jobs : List Job)
      → with_row_jobs now (due_rows add now db_now db schedules) jobs ≡ with_jobs now schedules jobs
  with_row_jobs-due_rows db [] jobs = refl
  with_row_jobs-due_rows db (s ∷ schedules) jobs = elim (Bool-cases s.enabled) [
    | inl on ↦ rw on (with_row_jobs-due_rows db schedules (job_of now s ∷ jobs))
    | inr off ↦ rw off (with_row_jobs-due_rows db schedules jobs)
  ]

  -- A pass that does not throw has added the job and written the schedule's row.
  abbrev Marks : Schedule → Job → BackfillDb → Returned (Unit {0}) × BackfillDb → Type 0
  Marks row job db (threw, d) = Unit
  Marks row job db (done u, d) =
      IsFresh db_now (d.states (schedule_key row.schedule_id))
      × ((k : JobKey) → IsFresh db_now (db.states k) → IsFresh db_now (d.states k))
      × (d.added ≡ job ∷ db.added)

  persisted-Marks :
      (row : Schedule) (key : JobKey) (payload paid : BackfillJobPayload) (status : JobStatus)
      (patch : Patch) (db : BackfillDb)
      → Marks row
          (key, payload)
          db
          (
            done tt,
            persist_queue_state db_now (schedule_key row.schedule_id) paid status patch (
                persist_queue_state db_now key payload queued no_patch
                  (record db { added = (key, payload) ∷ db.added })),
          )
  unfolding persist_queue_state
  persisted-Marks row key payload paid status patch db =
      let first =
        persist_queue_state db_now key payload queued no_patch
          (record db { added = (key, payload) ∷ db.added }) in
      (
        marked_row db_now row.schedule_id paid status patch first,
        (λ k f. persist-IsFresh db_now (schedule_key row.schedule_id) k paid status patch first (
            persist-IsFresh db_now key k payload queued no_patch
              (record db { added = (key, payload) ∷ db.added }) f)),
        refl,
      )

  add-Marks :
      (row : Schedule) (key : JobKey) (payload : BackfillJobPayload) (o : AddOutcome)
      (db : BackfillDb)
      → Marks row
          (key, payload)
          db
          (mark_schedule add now db_now row
            (cadence_ms_from_cron row.cadence_cron)
            (after_add db_now key payload o (record db { added = (key, payload) ∷ db.added })))
  add-Marks row key payload added db = persisted-Marks row key payload _ _ _ db
  add-Marks row key payload already_exists db = persisted-Marks row key payload _ _ _ db
  add-Marks row key payload add_failed db = tt

  enqueue_schedule-Marks :
      (row : Schedule) (db : BackfillDb)
      → Marks row (job_of now row) db (enqueue_schedule add now db_now row db)
  unfolding enqueue_schedule enqueue_backfill_job
  enqueue_schedule-Marks row db = add-Marks row _ _ (add (length db.added)) db

  abbrev DueAt : ℕ → Schedule × Option QueueRow → Type 0
  DueAt time (row, last) = is_due time (cadence_ms_from_cron row.cadence_cron) last ≡ true

  -- what a pass that does not throw has done with rows that are all due
  abbrev Passed :
      List (Schedule × Option QueueRow) → ℕ → BackfillDb → Returned ℕ × BackfillDb → Type 0
  Passed rows count db (threw, d) = Unit
  Passed rows count db (done n, d) =
      (n ≡ count + length rows)
      × (d.added ≡ with_row_jobs now rows db.added)
      × All (λ e. IsFresh db_now (d.states (schedule_key e.0.schedule_id))) rows
      × ((k : JobKey) → IsFresh db_now (db.states k) → IsFresh db_now (d.states k))

  Passed-cons :
      (row : Schedule) (last : Option QueueRow) (rows : List (Schedule × Option QueueRow)) (n : ℕ)
      (db d : BackfillDb) (r : Returned ℕ × BackfillDb)
      → Marks row (job_of now row) db (done tt, d)
      → Passed rows (suc n) d r
      → Passed ((row, last) ∷ rows) n db r
  Passed-cons row last rows n db d (threw, d') marks passed = tt
  Passed-cons row last rows n db d (done m, d') (fresh, kept, one) (total, all, each, later) = (
    omega arith,
    all ∙ ap (with_row_jobs now rows) one,
    (later (schedule_key row.schedule_id) fresh, each),
    (λ k f. later k (kept k f)),
  )

  counted-Passed :
      (row : Schedule) (last : Option QueueRow) (rows : List (Schedule × Option QueueRow)) (n : ℕ)
      (db : BackfillDb) (r : Returned (Unit {0}) × BackfillDb)
      (rest : BackfillDb → Returned ℕ × BackfillDb)
      → Marks row (job_of now row) db r
      → ((d : BackfillDb) → Passed rows (suc n) d (rest d))
      → Passed ((row, last) ∷ rows) n db (counted add now db_now n r rest)
  counted-Passed row last rows n db (threw, d) rest marks later = tt
  counted-Passed row last rows n db (done u, d) rest marks later =
      Passed-cons row last rows n db d (rest d) marks (later d)

  enqueue_loop-Passed :
      (rows : List (Schedule × Option QueueRow)) (n : ℕ) (db : BackfillDb)
      → All (DueAt now) rows
      → Passed rows n db (enqueue_loop add now db_now rows n db)
  unfolding enqueue_loop
  enqueue_loop-Passed [] n db due = (omega arith, refl, tt, (λ k f. f))
  enqueue_loop-Passed ((row, last) ∷ rows) n db (here, due) = rw here (
      counted-Passed row last rows n db (enqueue_schedule add now db_now row db)
        (λ d. enqueue_loop add now db_now rows (suc n) d) (enqueue_schedule-Marks row db)
        (λ d. enqueue_loop-Passed rows (suc n) d due))

fresh_not_due :
    (later cadence db_now : ℕ) (o : Option QueueRow)
    → IsFresh db_now o
    → 0 < db_now
    → later < db_now + cadence
    → is_due later cadence o ≡ false
fresh_not_due later cadence db_now none fresh pos lt = absurd fresh
fresh_not_due later cadence db_now (some row) fresh pos lt =
    rw (fresh, ltb_of_lt 0 db_now pos, ltb_of_lt later (db_now + cadence) lt)

abbrev NotDueAt : ℕ → Schedule × Option QueueRow → Type 0
NotDueAt time (row, last) = is_due time (cadence_ms_from_cron row.cadence_cron) last ≡ false

module _ (add add' : ℕ → AddOutcome) (now db_now later db_later : ℕ) (db db' : BackfillDb) where
  abbrev Soon : Schedule → Type 0
  Soon s = later < db_now + cadence_ms_from_cron s.cadence_cron

  none_due :
      (schedules : List Schedule)
      → 0 < db_now
      → All Soon schedules
      → All
          (λ e. IsFresh db_now (db'.states (schedule_key e.0.schedule_id)))
          (due_rows add now db_now db schedules)
      → All (NotDueAt later) (due_rows add' later db_later db' schedules)
  none_due [] pos soon fresh = tt
  none_due (s ∷ schedules) pos (first, soon) fresh = elim (Bool-cases s.enabled) [
    | inl on ↦
        let (f, fs) = rw on at fresh in
        rw on (
          fresh_not_due later _ db_now (db'.states (schedule_key s.schedule_id)) f pos first,
          none_due schedules pos soon fs,
        )
    | inr off ↦ rw off (none_due schedules pos soon (rw off at fresh))
  ]

  idle_loop :
      (rows : List (Schedule × Option QueueRow)) (n : ℕ)
      → All (NotDueAt later) rows
      → enqueue_loop add' later db_later rows n db' ≡ (done n, db')
  unfolding enqueue_loop
  idle_loop [] n idle = refl
  idle_loop ((row, last) ∷ rows) n (here, idle) = rw here (idle_loop rows n idle)

  -- Of two passes, the first calls the queue once for each enabled schedule, in their order, with the
  -- job of the schedule and of its bucket, which asks for the schedule's data of the lookback up to
  -- now, and counts them; the second, before the cadence of any schedule has passed since the first
  -- wrote its rows, enqueues nothing and changes nothing. A job that the queue has already counts
  -- too. Conditions: at the first pass every enabled schedule is due, no call of the queue throws, and
  -- the clock of the database is past 0.
  pub due_once :
      (schedules : List Schedule) (n : ℕ)
      → 0 < db_now
      → All (DueAt add now db_now now) (due_rows add now db_now db schedules)
      → All Soon schedules
      → enqueue_due_schedules add now db_now schedules db ≡ (done n, db')
      → (n ≡ length (due_rows add now db_now db schedules))
        × (db'.added ≡ with_jobs now schedules db.added)
        × (length db'.added ≡ length db.added + n)
        × (enqueue_due_schedules add' later db_later schedules db' ≡ (done 0, db'))
  unfolding enqueue_due_schedules
  due_once schedules n pos due soon first =
      let rows = due_rows add now db_now db schedules in
      let passed =
        subst (Passed add now db_now rows 0 db) first
          (enqueue_loop-Passed add now db_now rows 0 db due) in
      let (total, calls, fresh, kept) = passed in
      let added = calls ∙ with_row_jobs-due_rows add now db_now db schedules db.added in
      (
        omega arith,
        added,
        omega (arith, ap length calls, length-with_row_jobs now rows db.added),
        idle_loop _ 0 (none_due schedules pos soon fresh),
      )
