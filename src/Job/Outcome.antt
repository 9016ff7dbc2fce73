-- ===== src/Job/Outcome.antt =====
-- The writes that follow a claim, enqueueing and garbage collection
-- (crates/infrastructure/src/job/repo.rs).
pub mod Fencing
pub mod Enqueue
pub mod Collected
use bikesnest.Prelude.{
  ℕ, ◌+◌, ◌-◌, String, Bool, true, false, ◌&&◌, not, Option, none, some, List, [], ◌∷◌, ◌++◌,
  Result, ok, err, if◌then◌else◌, keep, length, any,
}
use bikesnest.Json.{Json}
use bikesnest.Job.Error.{JobRepoError, db}
use bikesnest.Job.Schedule.{Instant}
use bikesnest.Job.Table.{
  JobState, pending, running, succeeded, failed, JobRow, JobTable, is_terminal, is_before, is_text,
  update_where, Fault, scrubbed, dead_lettered, is_held, owner_write,
}

-- The lease columns of a row that nobody holds.
abbrev pub released : Instant → JobRow → JobRow
released now r = record r {
  claimed_by = none;
  lease_expires_at = none;
  heartbeat_at = none;
  started_at = none;
  updated_at = now;
}

abbrev pub is_some {ℓ} : {A : Type ℓ} → Option A → Bool
is_some none = false
is_some (some a) = true

module _ (fault : Fault) (now : Instant) (t : JobTable) (id : ℕ) (worker_id : String) where
  unfoldable pub heartbeat : ℕ → JobTable × Result JobRepoError (Unit {0})
  heartbeat lease_ttl =
      owner_write fault id (is_held id worker_id now)
        (λ r. record r {
          heartbeat_at = some now;
          lease_expires_at = some (now + lease_ttl);
          updated_at = now;
        })
        t

  unfoldable pub finish_success :
      Option Instant → Instant → JobTable × Result JobRepoError (Unit {0})
  finish_success (some next) finished_at =
      owner_write fault id (is_held id worker_id now)
        (λ r. record (released now r) {
          state = pending;
          attempts = 0;
          run_at = next;
          last_error = none;
          finished_at = some finished_at;
        })
        t
  finish_success none finished_at =
      owner_write fault id (is_held id worker_id now)
        (λ r. record (released now (scrubbed now r)) {
          state = succeeded;
          finished_at = some finished_at;
        })
        t

  unfoldable pub retry : String → Instant → JobTable × Result JobRepoError (Unit {0})
  retry error run_at =
      owner_write fault id (is_held id worker_id now)
        (λ r. record (released now r) { state = pending; run_at = run_at; last_error = some error })
        t

  unfoldable pub reschedule_after_failure :
      String → Instant → JobTable × Result JobRepoError (Unit {0})
  reschedule_after_failure error next_run_at =
      owner_write fault id (λ r. is_held id worker_id now r && is_some r.schedule)
        (λ r. record (released now r) {
          state = pending;
          attempts = 0;
          run_at = next_run_at;
          last_error = some error;
        })
        t

  unfoldable pub fail : String → JobTable × Result JobRepoError (Unit {0})
  fail error = owner_write fault id (is_held id worker_id now) (dead_lettered now error) t

-- The inserted row; the missing columns have the table's defaults.
unfoldable pub new_job : Instant → ℕ → String → Json → Instant → Option ℕ → Option String → JobRow
new_job now new_id kind payload run_at max_attempts key = record {
  id = new_id;
  kind = kind;
  payload = payload;
  state = pending;
  attempts = 0;
  max_attempts = elim max_attempts [ none ↦ 5 | some m ↦ m ];
  run_at = run_at;
  schedule = none;
  claimed_by = none;
  lease_expires_at = none;
  heartbeat_at = none;
  last_error = none;
  started_at = none;
  finished_at = none;
  idempotency_key = key;
  payload_redacted_at = none;
  mail_recipient_hash = none;
  mail_transition_audit_id = none;
  updated_at = now;
}

abbrev pub has_key : Option String → JobTable → Bool
has_key none t = false
has_key (some key) t = any (λ r. is_text r.idempotency_key key) t

-- `ON CONFLICT (idempotency_key) DO NOTHING`; `new_id` is what the identity column gives.
unfoldable pub enqueue :
    Fault
    → Instant
    → JobTable
    → ℕ
    → String
    → Json
    → Instant
    → Option ℕ
    → Option String
    → JobTable × Result JobRepoError (Option ℕ)
unfolding new_job
enqueue (some e) now t new_id kind payload run_at max_attempts key = (t, err (db e))
enqueue none now t new_id kind payload run_at max_attempts key =
    if has_key key t
    then (t, ok none)
    else (t ++ new_job now new_id kind payload run_at max_attempts key ∷ [], ok (some new_id))

abbrev pub is_collected : Instant → JobRow → Bool
is_collected cutoff r =
    is_terminal r.state && not (is_some r.schedule) && is_before r.finished_at cutoff

unfoldable pub gc : Fault → JobTable → Instant → JobTable × Result JobRepoError ℕ
gc (some e) t cutoff = (t, err (db e))
gc none t cutoff =
    let kept = keep (λ r. not (is_collected cutoff r)) t in (kept, ok (length t - length kept))
