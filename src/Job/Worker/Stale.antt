-- ===== src/Job/Worker/Stale.antt =====
-- A worker whose claim has been lost.
use bikesnest.Prelude.{
  ℕ, ◌≡◌, ◌∙◌, refl, String, Bool, true, false, Option, none, some, Result, ok, err, any, ap, ltb,
  if◌then◌else◌,
}
use bikesnest.Job.Error.{JobError, failed, permanent, Interrupted, raised, panics}
use bikesnest.Job.Schedule.{Instant, CronLib, next_run_at}
use bikesnest.Job.Table.{JobTable, is_held}
use bikesnest.Job.Outcome.{finish_success, retry, reschedule_after_failure, fail}
use bikesnest.Job.Outcome.Fencing.{not_held-fenced}
use bikesnest.Job.Claim.{ClaimedJob, ok_or_none, is_panic}
use bikesnest.Job.Worker.{
  Ending, joined, panicked, timed_out, heartbeat_failed, shutdown, HookEnding, WorkerState, persist,
  run_dead_letter_hook, reschedule_at, reschedule_recurring_failure, dead_letter, finish_failure,
  persist_success, retry_at, retry_persisted, attempt_failed, match_result, end_job, run_job,
}
use bikesnest.Job.Worker.Writes.{persist_table, hook_table}

module _ (lib : CronLib) (db_now now : Instant) (job : ClaimedJob) (base jitter : ℕ)
    (hook : HookEnding) where
  -- The lost lease, for whatever table the job's writes meet.
  abbrev IsLost : JobTable → Type 0
  IsLost t = any (is_held job.id job.owner db_now) t ≡ false

  fail_stale :
      (error : String) (s : WorkerState)
      → IsLost s.table
      → (persist (fail none db_now s.table job.id job.owner error) s).table ≡ s.table
  fail_stale error s h =
      persist_table (fail none db_now s.table job.id job.owner error) s
      ∙ ap (λ w. w.0) (not_held-fenced s.table job.id job.owner error db_now 0 0 none h).4

  dead_letter_stale :
      (error : String) (s : WorkerState)
      → IsLost s.table
      → (dead_letter lib none db_now job hook error s).table ≡ s.table
  unfolding dead_letter
  dead_letter_stale error s h =
      persist_table (fail none db_now (run_dead_letter_hook hook s).table job.id job.owner error)
        (run_dead_letter_hook hook s)
      ∙ ap (λ t. (fail none db_now t job.id job.owner error).0) (hook_table hook s)
      ∙ ap (λ w. w.0) (not_held-fenced s.table job.id job.owner error db_now 0 0 none h).4

  failure_stale :
      (error : String) (s : WorkerState)
      → IsLost s.table
      → (finish_failure lib none db_now job hook error now s).table ≡ s.table
  unfolding finish_failure reschedule_recurring_failure
  failure_stale error s h = ended (is_panic (next_run_at lib job.schedule now))
    where
      go :
          (next : Option Instant)
          → (if (reschedule_at lib none db_now job next error s).1
              then (reschedule_at lib none db_now job next error s).0
              else dead_letter lib none db_now job hook error s).table
            ≡ s.table
      go none = unfold reschedule_at in dead_letter_stale error s h
      go (some next) =
          unfold reschedule_at in
          persist_table (reschedule_after_failure none db_now s.table job.id job.owner error next) s
          ∙ ap (λ w. w.0) (not_held-fenced s.table job.id job.owner error db_now next 0 none h).3

      tried : Bool → WorkerState × Bool
      tried b =
          if b
          then (s, true)
          else reschedule_at lib none db_now job (ok_or_none (next_run_at lib job.schedule now))
              error s

      ended :
          (b : Bool)
          → (if (tried b).1
              then (tried b).0
              else dead_letter lib none db_now job hook error s).table
            ≡ s.table
      ended true = refl
      ended false = go (ok_or_none (next_run_at lib job.schedule now))

  error_stale :
      (e : JobError) (s : WorkerState)
      → IsLost s.table
      → (match_result lib none db_now job base jitter hook now (err e) s).table ≡ s.table
  unfolding match_result
  error_stale (permanent e) s h = failure_stale e s h
  error_stale (failed e) s h = go (ltb job.attempts job.max_attempts)
    where
      retried :
          (at : Option Instant)
          → (retry_persisted lib none db_now job base jitter hook now at e s).table ≡ s.table
      retried none = unfold retry_persisted in refl
      retried (some at) =
          unfold retry_persisted in
          persist_table (retry none db_now s.table job.id job.owner e at) s
          ∙ ap (λ w. w.0) (not_held-fenced s.table job.id job.owner e db_now at 0 none h).2

      go :
          (left : Bool)
          → (attempt_failed lib none db_now job base jitter hook now left e s).table ≡ s.table
      go true = unfold attempt_failed in retried (retry_at lib none db_now job base jitter hook now)
      go false = unfold attempt_failed in failure_stale e s h

  success_stale :
      (next : Result (Interrupted JobError) (Option Instant)) (s : WorkerState)
      → IsLost s.table
      → (persist_success lib none db_now job now next s).table ≡ s.table
  unfolding persist_success
  success_stale (ok next) s h =
      persist_table (finish_success none db_now s.table job.id job.owner next now) s
      ∙ ap (λ w. w.0) (not_held-fenced s.table job.id job.owner "" db_now now 0 next h).1
  success_stale (err panics) s h = refl
  success_stale (err (raised e)) s h = fail_stale "invalid schedule" s h

  -- When the writes meet no database error, a worker that has lost its claim on a job does no harm: whatever the handler's end, and with a
  -- handler or without, it leaves the table as it is.
  pub run_job-stale_harmless :
      (registered : Bool) (ending : Ending) (s : WorkerState)
      → any (is_held job.id job.owner db_now) s.table ≡ false
      → (run_job lib none db_now job base jitter hook now registered ending s).table ≡ s.table
  unfolding run_job end_job match_result
  run_job-stale_harmless false ending s h = fail_stale _ s h
  run_job-stale_harmless true (joined (ok v)) s h =
      success_stale (next_run_at lib job.schedule now) s h
  run_job-stale_harmless true (joined (err e)) s h = error_stale e s h
  run_job-stale_harmless true panicked s h = error_stale (failed "handler task panicked") s h
  run_job-stale_harmless true timed_out s h = error_stale (failed "handler timed out") s h
  run_job-stale_harmless true heartbeat_failed s h = refl
  run_job-stale_harmless true shutdown s h = refl
