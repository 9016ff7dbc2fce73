-- ===== src/Job/Recurring.antt =====
-- Reconciling the recurring jobs at startup: register_recurring
-- (crates/infrastructure/src/job/repo.rs), RecurringKind (registry.rs) and bootstrap (worker.rs).
pub mod Registered
use bikesnest.Prelude.{
  ℕ, String, ◌+++◌, Bool, true, false, ◌&&◌, ◌||◌, not, Option, none, some, List, [], ◌∷◌, ◌++◌,
  Result, ok, err, leb, ◌==◌, ◌=s=◌, if◌then◌else◌,
}
use bikesnest.Json.{Json}
use bikesnest.Job.Error.{
  JobError, JobRepoError, failed, permanent, db, invalid_recurring, reconciliation_deferred,
  bootstrap_incomplete, Interrupted, raised, panics,
}
use bikesnest.Job.Schedule.{Instant, CronLib, next_run_at}
use bikesnest.Job.Table.{
  JobState, pending, running, succeeded, JobRow, JobTable, is_text, update_where, Fault,
}
use bikesnest.Job.Outcome.{released}

pub data RecurringRegistrationOutcome : Type 0 where
  inserted healthy_preserved pending_schedule_repaired terminal_reactivated :
      RecurringRegistrationOutcome
  running_preserved failed_revived : RecurringRegistrationOutcome

pub record RecurringKind : Type 0 where
  pub job_kind : String
  pub payload : Json
  pub schedule : Json
  pub idempotency_key : String
  pub max_attempts : ℕ

-- The row of an idempotency key: the column is unique.
unfoldable pub row_by_key : String → JobTable → Option JobRow
row_by_key key [] = none
row_by_key key (r ∷ rest) = if is_text r.idempotency_key key then some r else row_by_key key rest

-- `Display` of a JobError
abbrev pub error_text : JobError → String
error_text (failed e) = "job failed: " +++ e
error_text (permanent e) = "job failed permanently (no retry): " +++ e

-- `json_eq` is `==` of serde_json; `debug` of a key is the library's.
module _ (lib : CronLib) (json_eq : Json → Json → Bool) (k : RecurringKind)
    (run_at now : Instant) where
  unfoldable pub new_row : ℕ → JobRow
  new_row new_id = record {
    id = new_id;
    kind = k.job_kind;
    payload = k.payload;
    state = pending;
    attempts = 0;
    max_attempts = k.max_attempts;
    run_at = run_at;
    schedule = some k.schedule;
    claimed_by = none;
    lease_expires_at = none;
    heartbeat_at = none;
    last_error = none;
    started_at = none;
    finished_at = none;
    idempotency_key = some k.idempotency_key;
    payload_redacted_at = none;
    mail_recipient_hash = none;
    mail_transition_audit_id = none;
    updated_at = now;
  }

  -- The statement of each branch, for the row that has the key; none where the row stays.
  unfoldable pub repaired : JobRow → JobRow
  repaired r = record r {
    schedule = some k.schedule;
    max_attempts = k.max_attempts;
    updated_at = now;
  }

  unfoldable pub revived : Instant → JobRow → JobRow
  revived next r = record (released now r) {
    state = pending;
    attempts = 0;
    run_at = next;
    max_attempts = k.max_attempts;
  }

  unfoldable pub reactivated : JobRow → JobRow
  reactivated r = record (released now r) {
    state = pending;
    attempts = 0;
    run_at = run_at;
    schedule = some k.schedule;
    max_attempts = k.max_attempts;
  }

  abbrev pub Branch : Type 0
  Branch = Result JobRepoError ((JobRow → JobRow) × RecurringRegistrationOutcome)

  -- `match (state, existing_schedule.is_none())`
  unfoldable pub reconcile_row : Instant → JobState → Option Json → Branch
  unfolding repaired revived reactivated
  reconcile_row next running none = err (reconciliation_deferred k.idempotency_key)
  reconcile_row next running (some s) = ok ((λ r. r), running_preserved)
  reconcile_row next pending (some s) = ok ((λ r. r), healthy_preserved)
  reconcile_row next pending none = ok (repaired, pending_schedule_repaired)
  reconcile_row next JobState.failed (some s) = ok (revived next, failed_revived)
  reconcile_row next JobState.failed none = ok (reactivated, terminal_reactivated)
  reconcile_row next succeeded s = ok (reactivated, terminal_reactivated)

  abbrev pub has_schedule : Option Json → Bool
  has_schedule none = true
  has_schedule (some s) = json_eq s k.schedule

  abbrev pub stable_key : String → JobRepoError
  stable_key what = invalid_recurring ("stable key " +++ (lib.debug k.idempotency_key +++ what))

  unfoldable pub check_row : Instant → JobRow → Branch
  unfolding reconcile_row
  check_row next r =
      if not (r.kind =s= k.job_kind) || not (json_eq r.payload k.payload)
      then err (stable_key " belongs to a different kind or payload")
      else if not (has_schedule r.schedule)
      then err (stable_key " has an unexpected schedule")
      else reconcile_row next r.state r.schedule

  unfoldable pub commit_row :
      JobRow → Branch → JobTable → JobTable × Result JobRepoError RecurringRegistrationOutcome
  commit_row r (err e) t = (t, err e)
  commit_row r (ok (set, outcome)) t = (update_where (λ s. s.id == r.id) set t, ok outcome)

  -- After `INSERT … ON CONFLICT (idempotency_key) DO NOTHING`.
  unfoldable pub insert_or_check :
      ℕ
      → Instant
      → Option JobRow
      → JobTable
      → JobTable × Result JobRepoError RecurringRegistrationOutcome
  unfolding new_row commit_row check_row
  insert_or_check new_id next none t = (t ++ new_row new_id ∷ [], ok inserted)
  insert_or_check new_id next (some r) t = commit_row r (check_row next r) t

  unfoldable pub of_transaction :
      JobTable × Result JobRepoError RecurringRegistrationOutcome
      → JobTable × Result (Interrupted JobRepoError) RecurringRegistrationOutcome
  of_transaction (t, err e) = (t, err (raised e))
  of_transaction (t, ok outcome) = (t, ok outcome)

  unfoldable pub register_next :
      Fault
      → ℕ
      → Result (Interrupted JobError) (Option Instant)
      → JobTable
      → JobTable × Result (Interrupted JobRepoError) RecurringRegistrationOutcome
  unfolding insert_or_check row_by_key of_transaction
  register_next fault new_id (err panics) t = (t, err panics)
  register_next fault new_id (err (raised e)) t =
      (t, err (raised (invalid_recurring (error_text e))))
  register_next fault new_id (ok none) t =
      (t, err (raised (invalid_recurring "schedule must produce a future run")))
  register_next (some e) new_id (ok (some next)) t = (t, err (raised (db e)))
  register_next none new_id (ok (some next)) t =
      of_transaction (insert_or_check new_id next (row_by_key k.idempotency_key t) t)

  -- A failure of any statement rolls the transaction back.
  unfoldable pub register_recurring :
      Fault
      → ℕ
      → JobTable
      → JobTable × Result (Interrupted JobRepoError) RecurringRegistrationOutcome
  unfolding register_next
  register_recurring fault new_id t =
      if (k.job_kind =s= "") || (k.idempotency_key =s= "") || leb k.max_attempts 0
      then (
        t,
        err (
            raised
              (invalid_recurring "kind/key must be non-empty and max_attempts must be positive")),
      )
      else register_next fault new_id (next_run_at lib (some k.schedule) run_at) t

-- `bootstrap`: each kind in turn, with what its transaction meets and the id that it would insert;
-- the keys of those that failed. A panic ends the loop.
-- What the rest of the loop gives, where the first registration returns.
unfoldable pub then_others :
    String
    → JobTable × Result (Interrupted JobRepoError) RecurringRegistrationOutcome
    → JobTable × Option (List String)
    → JobTable × Option (List String)
then_others key (t, err panics) others = (t, none)
then_others key (t, err (raised e)) (t', none) = (t', none)
then_others key (t, err (raised e)) (t', some keys) = (t', some (key ∷ keys))
then_others key (t, ok outcome) others = others

module _ (lib : CronLib) (json_eq : Json → Json → Bool) (now : Instant) where
  unfoldable pub bootstrap_rows :
      List (RecurringKind × Fault × ℕ) → JobTable → JobTable × Option (List String)
  unfolding register_recurring then_others
  bootstrap_rows [] t = (t, some [])
  bootstrap_rows ((k, fault, new_id) ∷ rest) t =
      let first = register_recurring lib json_eq k now now fault new_id t in
      let others = bootstrap_rows rest first.0 in then_others k.idempotency_key first others

  unfoldable pub incomplete : Option (List String) → Result (Interrupted JobRepoError) (Unit {0})
  incomplete none = err panics
  incomplete (some []) = ok tt
  incomplete (some (key ∷ keys)) = err (raised (bootstrap_incomplete (key ∷ keys)))

  unfoldable pub bootstrap :
      List (RecurringKind × Fault × ℕ)
      → JobTable
      → JobTable × Result (Interrupted JobRepoError) (Unit {0})
  unfolding bootstrap_rows incomplete
  bootstrap kinds t = let (t', keys) = bootstrap_rows kinds t in (t', incomplete keys)
