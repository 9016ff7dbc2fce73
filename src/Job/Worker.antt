-- ===== src/Job/Worker.antt =====
-- One claimed job, from its handler's end to the write of its outcome
-- (crates/infrastructure/src/job/worker.rs, crates/application/src/jobs.rs).
pub mod Writes
pub mod Handled
pub mod Stale
use bikesnest.Prelude.{
  ℕ, ◌+◌, String, ◌+++◌, Bool, true, false, Option, none, some, Result, ok, err, ltb, leb,
  if◌then◌else◌,
}
use bikesnest.Prelude.Int.{ℤ, pos, negsuc, ◌+ℤ◌, ◌*ℤ◌}
use bikesnest.Job.Error.{JobError, failed, permanent, JobRepoError, Interrupted, raised, panics}
use bikesnest.Job.Schedule.{Instant, CronLib, next_run_at, backoff_ms, as_signed}
use bikesnest.Job.Table.{JobTable, Fault}
use bikesnest.Job.Outcome.{finish_success, retry, reschedule_after_failure, fail}
use bikesnest.Job.Claim.{ClaimedJob, ok_or_none, is_panic}

-- Which branch of `tokio::select!` ends the execution of a handler.
pub data Ending : Type 0 where
  joined : Result JobError (Unit {0}) → Ending
  panicked timed_out heartbeat_failed shutdown : Ending

-- How the dead-letter hook ends: it returns, panics or is aborted at the time limit.
pub data HookEnding : Type 0 where
  hook_returned hook_panicked hook_timed_out : HookEnding

-- The table, and the count of observable failures.
pub record WorkerState : Type 0 where
  pub table : JobTable
  pub observable_failures : ℕ

abbrev pub note_failure : WorkerState → WorkerState
note_failure s = record s { observable_failures = s.observable_failures + 1 }

-- A write of the repository, and `note_failure` where it is refused.
unfoldable pub persist : JobTable × Result JobRepoError (Unit {0}) → WorkerState → WorkerState
persist (t, ok u) s = record s { table = t }
persist (t, err e) s = record s { table = t; observable_failures = s.observable_failures + 1 }

-- `now + Duration::milliseconds(delay_ms as i64)`: none where chrono panics, out of the range of its
-- instants. An instant before the epoch counts as the epoch.
unfoldable pub add_ms : CronLib → Instant → ℤ → Option Instant
add_ms lib now ms = elim (pos now +ℤ (pos 1000 *ℤ ms)) [
  | pos n ↦ if leb n lib.latest then some n else none
  | negsuc n ↦ if ltb n lib.earliest then some 0 else none
]

unfoldable pub run_dead_letter_hook : HookEnding → WorkerState → WorkerState
run_dead_letter_hook hook_returned s = s
run_dead_letter_hook hook_panicked s = note_failure s
run_dead_letter_hook hook_timed_out s = note_failure s

-- `db_now` is the database's clock at the write, `now` the worker's after the handler.
module _ (lib : CronLib) (fault : Fault) (db_now : Instant) (job : ClaimedJob) where
  unfoldable pub reschedule_at : Option Instant → String → WorkerState → WorkerState × Bool
  unfolding persist
  reschedule_at none error s = (s, false)
  reschedule_at (some next) error s =
      (persist (reschedule_after_failure fault db_now s.table job.id job.owner error next) s, true)

  -- Where `next_run_at` panics, the task ends with it: nothing is written, and nothing follows.
  unfoldable pub reschedule_recurring_failure : String → Instant → WorkerState → WorkerState × Bool
  unfolding reschedule_at
  reschedule_recurring_failure error now s =
      let next = next_run_at lib job.schedule now in
      if is_panic next then (s, true) else reschedule_at (ok_or_none next) error s

  -- The dead-letter hook runs before the row becomes terminal.
  unfoldable pub dead_letter : HookEnding → String → WorkerState → WorkerState
  unfolding persist run_dead_letter_hook
  dead_letter hook error s =
      let hooked = run_dead_letter_hook hook s in
      persist (fail fault db_now hooked.table job.id job.owner error) hooked

  -- What follows a spent attempt: the next run of a recurring job, or the dead letter.
  unfoldable pub finish_failure : HookEnding → String → Instant → WorkerState → WorkerState
  unfolding dead_letter reschedule_recurring_failure
  finish_failure hook error now s =
      let rescheduled = reschedule_recurring_failure error now s in
      if rescheduled.1 then rescheduled.0 else dead_letter hook error s

  unfoldable pub persist_success :
      Instant → Result (Interrupted JobError) (Option Instant) → WorkerState → WorkerState
  unfolding persist
  persist_success now (ok next) s =
      persist (finish_success fault db_now s.table job.id job.owner next now) s
  persist_success now (err panics) s = s
  persist_success now (err (raised e)) s =
      persist (fail fault db_now s.table job.id job.owner "invalid schedule") s

  module _ (backoff_base_ms jitter : ℕ) (hook : HookEnding) (now : Instant) where
    unfoldable pub retry_at : Option Instant
    unfolding add_ms backoff_ms as_signed
    retry_at = add_ms lib now (as_signed (backoff_ms job.attempts backoff_base_ms jitter))

    unfoldable pub retry_persisted : Option Instant → String → WorkerState → WorkerState
    unfolding persist
    retry_persisted none e s = s
    retry_persisted (some at) e s = persist (retry fault db_now s.table job.id job.owner e at) s

    -- A failed attempt, by whether another one is left.
    unfoldable pub attempt_failed : Bool → String → WorkerState → WorkerState
    unfolding retry_persisted finish_failure retry_at
    attempt_failed true e s = retry_persisted retry_at e s
    attempt_failed false e s = finish_failure hook e now s

    unfoldable pub match_result : Result JobError (Unit {0}) → WorkerState → WorkerState
    unfolding persist_success finish_failure attempt_failed
    match_result (ok u) s = persist_success now (next_run_at lib job.schedule now) s
    match_result (err (failed e)) s = attempt_failed (ltb job.attempts job.max_attempts) e s
    match_result (err (permanent e)) s = finish_failure hook e now s

    unfoldable pub end_job : Ending → WorkerState → WorkerState
    unfolding match_result
    end_job (joined result) s = match_result result s
    end_job panicked s = match_result (err (failed "handler task panicked")) s
    end_job timed_out s = match_result (err (failed "handler timed out")) s
    end_job heartbeat_failed s = note_failure s
    end_job shutdown s = s

    -- `registered` tells whether the registry has a handler for the job's kind.
    unfoldable pub run_job : Bool → Ending → WorkerState → WorkerState
    unfolding persist end_job
    run_job true ending s = end_job ending s
    run_job false ending s =
        persist
          (fail fault db_now s.table job.id job.owner
            ("no handler registered for kind '" +++ (job.kind +++ "'")))
          s
