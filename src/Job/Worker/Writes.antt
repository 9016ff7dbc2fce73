-- ===== src/Job/Worker/Writes.antt =====
-- The writes of run_job to a row whose lease the worker holds.
use bikesnest.Prelude.{
  ℕ, ◌≡◌, refl, String, Bool, true, false, ◌&&◌, none, some, Result, ok, err, if◌then◌else◌,
  Bool-cases, inl, inr,
}
use bikesnest.Json.{object, end}
use bikesnest.Job.Error.{JobRepoError}
use bikesnest.Job.Schedule.{Instant, CronLib, next_run_at}
use bikesnest.Job.Table.{
  JobRow, JobTable, JobState, pending, succeeded, is_terminal, is_mail, is_held, dead_lettered,
  scrubbed,
}
use bikesnest.Job.Table.Laws.{row_of, HasUniqueIds}
use bikesnest.Job.Table.Held.{owner_write-row, is_held_id, is_held_and_id}
use bikesnest.Job.Outcome.{finish_success, retry, reschedule_after_failure, fail, is_some}
use bikesnest.Job.Worker.{
  HookEnding, hook_returned, hook_panicked, hook_timed_out, WorkerState, persist,
  run_dead_letter_hook,
}

pub hook_table :
    (hook : HookEnding) (s : WorkerState) → (run_dead_letter_hook hook s).table ≡ s.table
unfolding run_dead_letter_hook
hook_table hook_returned s = refl
hook_table hook_panicked s = refl
hook_table hook_timed_out s = refl

pub persist_table :
    (w : JobTable × Result JobRepoError (Unit {0})) (s : WorkerState) → (persist w s).table ≡ w.0
unfolding persist
persist_table (t, ok u) s = refl
persist_table (t, err e) s = refl

-- A schedule that gives a run is there.
pub scheduled :
    (lib : CronLib) (s : _) (now next : Instant)
    → next_run_at lib s now ≡ ok (some next)
    → is_some s ≡ true
unfolding next_run_at
scheduled lib none now next h = cc
scheduled lib (some s) now next h = refl

kept_payload : (r : JobRow) (b : Bool) → r.payload ≡ (if b && false then object end else r.payload)
kept_payload r true = refl
kept_payload r false = refl

module _ (now : Instant) (r : JobRow) where
  scrubbed_id : (scrubbed now r).id ≡ r.id
  unfolding scrubbed
  scrubbed_id = elim (Bool-cases (is_mail r)) [ inl e ↦ rw e refl | inr e ↦ rw e refl ]

  scrubbed_schedule : (scrubbed now r).schedule ≡ r.schedule
  unfolding scrubbed
  scrubbed_schedule = elim (Bool-cases (is_mail r)) [ inl e ↦ rw e refl | inr e ↦ rw e refl ]

  scrubbed_payload :
      (scrubbed now r).payload ≡ (if is_mail r && true then object end else r.payload)
  unfolding scrubbed
  scrubbed_payload = elim (Bool-cases (is_mail r)) [ inl e ↦ rw e refl | inr e ↦ rw e refl ]

-- Writes by the worker that holds the job's lease.
module _ (now : Instant) (id : ℕ) (owner : String) (t : JobTable) (r : JobRow) (u : HasUniqueIds t)
    (found : row_of id t ≡ some r) (held : is_held id owner now r ≡ true) where
  -- What the row is afterwards: its state, its schedule, and whether its payload is gone.
  abbrev pub Leaves : JobTable → JobState → Type 0
  Leaves t' state =
      (r' : JobRow) × (row_of id t' ≡ some r')
      × (r'.state ≡ state)
      × (r'.schedule ≡ r.schedule)
      × (r'.claimed_by ≡ none)
      × (r'.payload ≡ (if is_mail r && is_terminal state then object end else r.payload))

  pub retry-pending :
      (error : String) (at : Instant) → Leaves (retry none now t id owner error at).0 pending
  unfolding retry
  retry-pending error at = (
    _,
    owner_write-row id _ _ (is_held_id id owner now) (λ _. refl) t r u found held,
    refl,
    refl,
    refl,
    kept_payload r (is_mail r),
  )

  pub reschedule-pending :
      (error : String) (at : Instant)
      → is_some r.schedule ≡ true
      → Leaves (reschedule_after_failure none now t id owner error at).0 pending
  unfolding reschedule_after_failure
  reschedule-pending error at recurring = (
    _,
    owner_write-row id _ _ (is_held_and_id id owner now (λ r. is_some r.schedule)) (λ _. refl) t r u
        found (rw (held, recurring) refl),
    refl,
    refl,
    refl,
    kept_payload r (is_mail r),
  )

  pub finish-pending :
      (next at : Instant) → Leaves (finish_success none now t id owner (some next) at).0 pending
  unfolding finish_success
  finish-pending next at = (
    _,
    owner_write-row id _ _ (is_held_id id owner now) (λ _. refl) t r u found held,
    refl,
    refl,
    refl,
    kept_payload r (is_mail r),
  )

  pub finish-succeeded :
      (at : Instant) → Leaves (finish_success none now t id owner none at).0 succeeded
  unfolding finish_success
  finish-succeeded at = (
    _,
    owner_write-row id _ _ (is_held_id id owner now) (scrubbed_id now) t r u found held,
    refl,
    scrubbed_schedule now r,
    refl,
    scrubbed_payload now r,
  )

  pub fail-failed : (error : String) → Leaves (fail none now t id owner error).0 JobState.failed
  unfolding fail dead_lettered
  fail-failed error = (
    _,
    owner_write-row id _ _ (is_held_id id owner now) (scrubbed_id now) t r u found held,
    refl,
    scrubbed_schedule now r,
    refl,
    scrubbed_payload now r,
  )
