-- ===== src/Job/Tests.antt =====
-- The theorems on jobs at a concrete queue.
use bikesnest.Prelude.{
  ◌≤◌, ◌<◌, ◌≡◌, ◌↔◌, ◌⊎◌, refl, true, false, ◌&&◌, none, some, [], ◌∷◌, ok, err, arith, All,
  if◌then◌else◌,
}
use bikesnest.Prelude.Int.{pos, ltb_ℤ, ◌+ℤ◌, ◌*ℤ◌}
use bikesnest.Json.{null, object, end}
use bikesnest.Job.Error.{permanent, lost_ownership}
use bikesnest.Job.Schedule.{next_run_at, backoff_ms, as_signed, u64_max}
use bikesnest.Job.Schedule.Next.{next_run_at-later, next_run_at-none_iff}
use bikesnest.Job.Schedule.Backoff.{backoff_ms-grows, backoff_ms-negative}
use bikesnest.Job.Table.{JobState, pending, JobRow, is_held, is_mail, is_terminal}
use bikesnest.Job.Table.Laws.{row_of}
use bikesnest.Job.Outcome.{
  heartbeat, finish_success, retry, reschedule_after_failure, fail, enqueue, gc,
}
use bikesnest.Job.Outcome.Fencing.{not_held-fenced}
use bikesnest.Job.Claim.{claim_inner}
use bikesnest.Job.Claim.Claimed.{claim_inner-live_kept}
use bikesnest.Job.Outcome.Collected.{is_expendable, gc_decides}
use bikesnest.Job.Outcome.Enqueue.{enqueue-once}
use bikesnest.Job.Claim.Budget.{IsInBudget, claim_inner-IsInBudget}
use bikesnest.Job.Worker.{joined, timed_out, hook_returned, run_job, retry_at, add_ms}
use bikesnest.Job.Worker.Handled.{run_job-recurring_survives, run_job-one_shot}
use bikesnest.Job.Worker.Stale.{run_job-stale_harmless}
use bikesnest.Job.Recurring.{register_recurring, inserted}
use bikesnest.Job.Recurring.Registered.{Registered, register_recurring-registers}
use bikesnest.Job.Fixtures.{
  cron_lib, daily, held_row, held_mail, two_jobs, claimed_job, claimed_mail, worker_state,
  retention_kind, sent_mail,
}

next_run_at-daily : next_run_at cron_lib (some daily) 5 ≡ ok (some 86_400_000_005)
unfolding next_run_at
next_run_at-daily = refl

next_run_at-later_example : 5 < 86_400_000_005
next_run_at-later_example =
    next_run_at-later cron_lib (some daily) 5 86_400_000_005 next_run_at-daily

next_run_at-none_iff_example :
    (next_run_at cron_lib (some daily) 5 ≡ ok none)
    ↔ ((some daily ≡ none) ⊎ (some daily ≡ some null))
next_run_at-none_iff_example = next_run_at-none_iff cron_lib (some daily) 5

backoff_ms-grows_example :
    (backoff_ms 2 1000 7 ≤ u64_max) × (backoff_ms 2 1000 7 ≤ backoff_ms 3 1000 0)
backoff_ms-grows_example = backoff_ms-grows 2 1000 7 0 (omega arith) (omega arith)

backoff_ms-negative_example : ltb_ℤ (as_signed (backoff_ms 64 1000 0)) (pos 0) ≡ true
backoff_ms-negative_example = backoff_ms-negative 64 1000 0 (omega arith) (omega arith)

not_held-fenced_example :
    (heartbeat none 120 two_jobs 1 "w" 60 ≡ (two_jobs, err (lost_ownership 1)))
    × (finish_success none 120 two_jobs 1 "w" none 110 ≡ (two_jobs, err (lost_ownership 1)))
    × (retry none 120 two_jobs 1 "w" "late" 110 ≡ (two_jobs, err (lost_ownership 1)))
    × (reschedule_after_failure none 120 two_jobs 1 "w" "late" 110
        ≡ (two_jobs, err (lost_ownership 1)))
    × (fail none 120 two_jobs 1 "w" "late" ≡ (two_jobs, err (lost_ownership 1)))
not_held-fenced_example =
    not_held-fenced two_jobs 1 "w" "late" 120 110 60 none (unfold is_held in refl)

claim_inner-live_kept_example :
    row_of 1 (claim_inner 50 "x" 60 cron_lib none none 10 none (λ id. false) two_jobs).0
    ≡ some held_row
claim_inner-live_kept_example =
    claim_inner-live_kept cron_lib none none 50 none (λ id. false) "x" 60 10 1 two_jobs held_row
      (refl, (refl, tt)) refl refl refl

claim_inner-IsInBudget_example :
    All IsInBudget (claim_inner 150 "x" 60 cron_lib none none 10 none (λ id. false) two_jobs).0
claim_inner-IsInBudget_example =
    claim_inner-IsInBudget cron_lib none none 150 none (λ id. false) "x" 60 10 two_jobs
      (refl, (refl, tt)) (refl, (refl, tt))

run_job-recurring_survives_example :
    (r : JobRow) × (row_of 1
        (run_job cron_lib none 60 claimed_job 1000 0 hook_returned 59 true timed_out
          worker_state).table
      ≡ some r)
    × (r.state ≡ pending)
    × (r.schedule ≡ some daily)
    × (r.claimed_by ≡ none)
    × (r.payload ≡ (if is_mail held_row && is_terminal pending then object end else object end))
run_job-recurring_survives_example =
    run_job-recurring_survives cron_lib 59 60 claimed_job 1000 0 hook_returned worker_state held_row
      (refl, (refl, tt)) refl (unfold is_held in refl) 86_400_000_059 timed_out
      (unfold next_run_at in refl) refl (λ left. cc) refl

run_job-one_shot_example :
    (r : JobRow) × (row_of 2
        (run_job cron_lib none 60 claimed_mail 1000 0 hook_returned 59 true
          (joined (err (permanent "bounced")))
          worker_state).table
      ≡ some r)
    × (r.state ≡ JobState.failed)
    × (r.schedule ≡ none)
    × (r.claimed_by ≡ none)
    × (r.payload
        ≡ (if is_mail held_mail && is_terminal JobState.failed then object end else object end))
run_job-one_shot_example =
    run_job-one_shot cron_lib 59 60 claimed_mail 1000 0 hook_returned worker_state held_mail
      (refl, (refl, tt)) refl (unfold is_held in refl) (joined (err (permanent "bounced"))) refl
      (λ left. unfold retry_at add_ms backoff_ms as_signed ◌+ℤ◌ ◌*ℤ◌ in refl) refl

run_job-stale_harmless_example :
    (run_job cron_lib none 120 claimed_job 1000 0 hook_returned 119 true
      (joined (ok tt))
      worker_state).table
    ≡ two_jobs
run_job-stale_harmless_example =
    run_job-stale_harmless cron_lib 120 119 claimed_job 1000 0 hook_returned true (joined (ok tt))
      worker_state (unfold is_held in refl)

-- A delay of some 557,000 years is out of chrono's range, and one year is not.
out_of_range : add_ms cron_lib 59 (as_signed (backoff_ms 44 2000 0)) ≡ none
unfolding add_ms as_signed backoff_ms ◌+ℤ◌ ◌*ℤ◌
out_of_range = refl

in_range : add_ms cron_lib 59 (pos 31_536_000_000) ≡ some 31_536_000_000_059
unfolding add_ms ◌+ℤ◌ ◌*ℤ◌
in_range = refl

registered_anew :
    (register_recurring cron_lib (λ a b. true) retention_kind 0 0 none 3 []).1 ≡ ok inserted
unfolding register_recurring next_run_at
registered_anew = refl

register_recurring-registers_example :
    Registered cron_lib
      (λ a b. true)
      (λ v. refl)
      retention_kind
      0
      0
      two_jobs
      (register_recurring cron_lib (λ a b. true) retention_kind 0 0 none 3 two_jobs)
register_recurring-registers_example =
    register_recurring-registers cron_lib (λ a b. true) (λ v. refl) retention_kind 0 0 none 3
      two_jobs

enqueue-once_example :
    enqueue none 51
      (enqueue none 50 two_jobs 3 "retention" (object end) 50 none (some "k")).0
      4
      "retention"
      (object end)
      60
      none
      (some "k")
    ≡ ((enqueue none 50 two_jobs 3 "retention" (object end) 50 none (some "k")).0, ok none)
enqueue-once_example =
    enqueue-once 50 51 50 60 two_jobs 3 4 "retention" "retention" "k" (object end) (object end) none
      none

gc_decides_example :
    row_of 4 (gc none (sent_mail ∷ two_jobs) 20).0
    ≡ (if is_expendable 20 sent_mail then none else some sent_mail)
gc_decides_example =
    gc_decides (sent_mail ∷ two_jobs) 20 4 sent_mail (refl, (refl, (refl, tt))) refl

-- The job that succeeded long ago goes, and the other two stay.
gc_removes : (gc none (sent_mail ∷ two_jobs) 20).0 ≡ two_jobs
unfolding gc
gc_removes = refl
