-- ===== src/Job/Worker/Handled.antt =====
-- What run_job leaves of the job's row, for every end of the handler.
use bikesnest.Prelude.{
  ℕ, ◌≡◌, ◌∙◌, refl, String, Bool, true, false, Option, none, some, ok, err, ltb, if◌then◌else◌, ap,
  sym,
}
use mathlib.Core.Path.{subst}
use bikesnest.Job.Error.{JobError, failed, permanent}
use bikesnest.Job.Schedule.{Instant, CronLib, next_run_at}
use bikesnest.Job.Table.{JobRow, JobTable, JobState, pending, succeeded, is_held}
use bikesnest.Job.Table.Laws.{row_of, HasUniqueIds}
use bikesnest.Job.Outcome.{finish_success, retry, reschedule_after_failure, fail, is_some}
use bikesnest.Job.Claim.{ClaimedJob}
use bikesnest.Job.Worker.{
  Ending, joined, panicked, timed_out, heartbeat_failed, shutdown, HookEnding, WorkerState,
  run_dead_letter_hook, reschedule_at, reschedule_recurring_failure, dead_letter, finish_failure,
  persist_success, retry_at, retry_persisted, attempt_failed, match_result, end_job, run_job,
}
use bikesnest.Job.Worker.Writes.{
  hook_table, persist_table, scheduled, Leaves, retry-pending, reschedule-pending, finish-succeeded,
  fail-failed,
}

-- The ends that count as a failure of the handler.
abbrev pub is_failure : Ending → Bool
is_failure (joined (err e)) = true
is_failure panicked = true
is_failure timed_out = true
is_failure _ = false

-- The ends after which the outcome is written.
abbrev pub is_settling : Ending → Bool
is_settling heartbeat_failed = false
is_settling shutdown = false
is_settling _ = true

-- What run_job leaves of the row, for a job whose claim is live when the outcome is written.
module _ (lib : CronLib) (now db_now : Instant) (job : ClaimedJob) (base jitter : ℕ)
    (hook : HookEnding) (s : WorkerState) (r : JobRow) (u : HasUniqueIds s.table)
    (found : row_of job.id s.table ≡ some r) (held : is_held job.id job.owner db_now r ≡ true) where
  abbrev after : Ending → JobTable
  after ending = (run_job lib none db_now job base jitter hook now true ending s).table

  abbrev Outcome : JobTable → JobState → Type 0
  Outcome = Leaves db_now job.id job.owner s.table r u found held

  recurring_table :
      (next : Instant) (e : String)
      → next_run_at lib job.schedule now ≡ ok (some next)
      → (finish_failure lib none db_now job hook e now s).table
        ≡ (reschedule_after_failure none db_now s.table job.id job.owner e next).0
  unfolding finish_failure reschedule_recurring_failure reschedule_at dead_letter
  recurring_table next e h =
      rw h (persist_table (reschedule_after_failure none db_now s.table job.id job.owner e next) s)

  last_table :
      (e : String)
      → next_run_at lib job.schedule now ≡ ok none
      → (finish_failure lib none db_now job hook e now s).table
        ≡ (fail none db_now s.table job.id job.owner e).0
  unfolding finish_failure reschedule_recurring_failure reschedule_at dead_letter
  last_table e h = rw h (
      persist_table (fail none db_now (run_dead_letter_hook hook s).table job.id job.owner e)
        (run_dead_letter_hook hook s)
      ∙ ap (λ t. (fail none db_now t job.id job.owner e).0) (hook_table hook s))

  moved : {t' t'' : JobTable} {state : JobState} → t' ≡ t'' → Outcome t'' state → Outcome t' state
  moved {state} e o = subst (λ t. Outcome t state) (sym e) o

  abbrev error_table : JobError → JobTable
  error_table e = (match_result lib none db_now job base jitter hook now (err e) s).table

  abbrev attempted : Bool → String → JobTable
  attempted left e = (attempt_failed lib none db_now job base jitter hook now left e s).table

  -- Where an attempt is left, chrono can represent the instant of the retry.
  abbrev InRange : Type 0
  InRange =
      ltb job.attempts job.max_attempts ≡ true
      → is_some (retry_at lib none db_now job base jitter hook now) ≡ true

  -- The three writes that follow a failure.
  retried_at :
      (e : String) (at : Option Instant)
      → is_some at ≡ true
      → Outcome (retry_persisted lib none db_now job base jitter hook now at e s).table pending
  unfolding retry_persisted
  retried_at e none h = cc
  retried_at e (some at) h =
      moved (persist_table (retry none db_now s.table job.id job.owner e at) s)
        (retry-pending db_now job.id job.owner s.table r u found held e at)

  retried :
      (e : String)
      → is_some (retry_at lib none db_now job base jitter hook now) ≡ true
      → Outcome (attempted true e) pending
  unfolding attempt_failed
  retried e h = retried_at e (retry_at lib none db_now job base jitter hook now) h

  rescheduled :
      (next : Instant) (e : String)
      → next_run_at lib job.schedule now ≡ ok (some next)
      → job.schedule ≡ r.schedule
      → Outcome (finish_failure lib none db_now job hook e now s).table pending
  rescheduled next e h same = moved (recurring_table next e h) (
      reschedule-pending db_now job.id job.owner s.table r u found held e next
        (rw same at (scheduled lib job.schedule now next h)))

  dead_lettered_last :
      (e : String)
      → next_run_at lib job.schedule now ≡ ok none
      → Outcome (finish_failure lib none db_now job hook e now s).table JobState.failed
  dead_lettered_last e h =
      moved (last_table e h) (fail-failed db_now job.id job.owner s.table r u found held e)

  error_recurring :
      (next : Instant) (e : JobError)
      → next_run_at lib job.schedule now ≡ ok (some next)
      → job.schedule ≡ r.schedule
      → InRange
      → Outcome (error_table e) pending
  unfolding match_result
  error_recurring next (permanent e) h same fits = rescheduled next e h same
  error_recurring next (failed e) h same fits = go (ltb job.attempts job.max_attempts) fits
    where
      go :
          (left : Bool)
          → (left ≡ true → is_some (retry_at lib none db_now job base jitter hook now) ≡ true)
          → Outcome (attempted left e) pending
      go true fits' = retried e (fits' refl)
      go false fits' = unfold attempt_failed in rescheduled next e h same

  -- On a table with unique ids, and when the writes meet no database error, a recurring job
  -- survives every failure of its handler: while its claim is live, a job whose schedule has a
  -- next run is pending again after an error, permanent or not, a panic or a time-out, with its
  -- schedule and its payload, and held by nobody. If an attempt is left, the instant of the retry is
  -- to be one that chrono can represent; if none is left, the next run is enough.
  pub run_job-recurring_survives :
      (next : Instant) (ending : Ending)
      → next_run_at lib job.schedule now ≡ ok (some next)
      → job.schedule ≡ r.schedule
      → (ltb job.attempts job.max_attempts ≡ true
          → is_some (retry_at lib none db_now job base jitter hook now) ≡ true)
      → is_failure ending ≡ true
      → Outcome (after ending) pending
  unfolding run_job end_job
  run_job-recurring_survives next (joined (ok v)) h same fits f = cc
  run_job-recurring_survives next (joined (err e)) h same fits f =
      error_recurring next e h same fits
  run_job-recurring_survives next panicked h same fits f =
      error_recurring next (failed "handler task panicked") h same fits
  run_job-recurring_survives next timed_out h same fits f =
      error_recurring next (failed "handler timed out") h same fits
  run_job-recurring_survives next heartbeat_failed h same fits f = cc
  run_job-recurring_survives next shutdown h same fits f = cc

  -- The state that a one-shot job is left in by each end of its handler.
  abbrev after_attempt : JobState
  after_attempt = if ltb job.attempts job.max_attempts then pending else JobState.failed

  abbrev pub one_shot_state : Ending → JobState
  one_shot_state (joined (ok v)) = succeeded
  one_shot_state (joined (err (permanent e))) = JobState.failed
  one_shot_state _ = after_attempt

  one_shot : job.schedule ≡ none → next_run_at lib job.schedule now ≡ ok none
  unfolding next_run_at
  one_shot h = rw h refl

  one_shot_attempt :
      (e : String) → job.schedule ≡ none → InRange → Outcome (error_table (failed e)) after_attempt
  unfolding match_result
  one_shot_attempt e h fits = go (ltb job.attempts job.max_attempts) fits
    where
      go :
          (left : Bool)
          → (left ≡ true → is_some (retry_at lib none db_now job base jitter hook now) ≡ true)
          → Outcome (attempted left e) (if left then pending else JobState.failed)
      go true fits' = retried e (fits' refl)
      go false fits' = unfold attempt_failed in dead_lettered_last e (one_shot h)

  one_shot_done :
      job.schedule ≡ none
      → Outcome
          (persist_success lib none db_now job now (next_run_at lib job.schedule now) s).table
          succeeded
  one_shot_done h =
      moved table (finish-succeeded db_now job.id job.owner s.table r u found held now)
    where
      table :
          (persist_success lib none db_now job now (next_run_at lib job.schedule now) s).table
          ≡ (finish_success none db_now s.table job.id job.owner none now).0
      table =
          unfold persist_success next_run_at in
          ap (λ o. (persist_success lib none db_now job now (next_run_at lib o now) s).table) h
          ∙ persist_table (finish_success none db_now s.table job.id job.owner none now) s

  -- On a table with unique ids, and when the writes meet no database error, a one-shot job ends in
  -- the state that its handler's end calls for, lost heartbeats and shutdowns aside: while its
  -- claim is live, it has succeeded after a success, has failed after a permanent error, and after
  -- an error, a panic or a time-out is pending again as long as an attempt is left, and failed
  -- from then on. Nobody holds it any more, and the payload of a mail is emptied exactly if the
  -- job has ended. If an attempt is left, the instant of the retry is to be one that chrono can
  -- represent.
  pub run_job-one_shot :
      (ending : Ending)
      → job.schedule ≡ none
      → (ltb job.attempts job.max_attempts ≡ true
          → is_some (retry_at lib none db_now job base jitter hook now) ≡ true)
      → is_settling ending ≡ true
      → Outcome (after ending) (one_shot_state ending)
  unfolding run_job end_job match_result
  run_job-one_shot (joined (ok v)) h fits f = one_shot_done h
  run_job-one_shot (joined (err (permanent e))) h fits f = dead_lettered_last e (one_shot h)
  run_job-one_shot (joined (err (failed e))) h fits f = one_shot_attempt e h fits
  run_job-one_shot panicked h fits f = one_shot_attempt "handler task panicked" h fits
  run_job-one_shot timed_out h fits f = one_shot_attempt "handler timed out" h fits
  run_job-one_shot heartbeat_failed h fits f = cc
  run_job-one_shot shutdown h fits f = cc
