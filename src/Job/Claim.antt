-- ===== src/Job/Claim.antt =====
-- Claiming jobs, and finalising the leases that have run out
-- (crates/infrastructure/src/job/repo.rs).
pub mod Selected
pub mod Claimed
pub mod Budget
use bikesnest.Prelude.{
  ℕ, ◌+◌, String, Bool, true, false, ◌&&◌, ◌||◌, not, Option, none, some, List, [], ◌∷◌, ◌++◌, map,
  Result, ok, err, ltb, leb, ◌==◌, ◌=s=◌, if◌then◌else◌, any, keep, take,
}
use bikesnest.Json.{Json}
use bikesnest.Job.Error.{JobError, JobRepoError, db, Interrupted, raised, panics}
use bikesnest.Job.Schedule.{Instant, CronLib, next_run_at}
use bikesnest.Job.Table.{
  JobState, pending, running, JobRow, JobTable, is_pending, is_running, is_before, or_else, is_mail,
  update_where, Fault, dead_lettered,
}
use bikesnest.Job.Outcome.{released}

pub record ClaimedJob : Type 0 where
  pub id : ℕ
  pub kind : String
  pub payload : Json
  pub attempts : ℕ
  pub max_attempts : ℕ
  pub schedule : Option Json
  pub owner : String

pub record ExhaustedLease : Type 0 where
  pub id : ℕ
  pub kind : String
  pub rescheduled_at : Option Instant

abbrev pub exhausted_lease_error : String
exhausted_lease_error = "lease expired after the final attempt (worker crashed or the handler hung)"

-- `AND kind = ANY($4)`, where a filter is given.
abbrev pub has_kind : Option (List String) → JobRow → Bool
has_kind none r = true
has_kind (some kinds) r = any (λ k. k =s= r.kind) kinds

-- `column <= $t` of a nullable column
abbrev pub is_until : Option Instant → Instant → Bool
is_until none t = false
is_until (some u) t = leb u t

-- `fetch_optional`
abbrev pub first_row {ℓ} : {A : Type ℓ} → List A → Option A
first_row [] = none
first_row (a ∷ rest) = some a

-- `ORDER BY run_at, id`
abbrev pub comes_first : JobRow → JobRow → Bool
comes_first a b = ltb a.run_at b.run_at || (a.run_at == b.run_at && leb a.id b.id)

abbrev pub id_first : JobRow → JobRow → Bool
id_first a b = leb a.id b.id

unfoldable pub insert_row : (JobRow → JobRow → Bool) → JobRow → List JobRow → List JobRow
insert_row first a [] = a ∷ []
insert_row first a (b ∷ rest) = if first a b then a ∷ b ∷ rest else b ∷ insert_row first a rest

unfoldable pub order_by : (JobRow → JobRow → Bool) → List JobRow → List JobRow
unfolding insert_row
order_by first [] = []
order_by first (a ∷ rest) = insert_row first a (order_by first rest)

-- A query sees neither the rows of other kinds nor those that another transaction has locked.
module _ (now : Instant) (kinds : Option (List String)) (locked : ℕ → Bool) where
  abbrev pub is_visible : JobRow → Bool
  is_visible r = has_kind kinds r && not (locked r.id)

  abbrev pub is_exhausted : JobRow → Bool
  is_exhausted r =
      is_running r.state
      && is_before r.lease_expires_at now
      && leb r.max_attempts r.attempts
      && is_visible r

  abbrev pub is_due : JobRow → Bool
  is_due r = is_pending r.state && leb r.run_at now && is_visible r

  abbrev pub is_expired : JobRow → Bool
  is_expired r =
      is_running r.state
      && is_before r.lease_expires_at now
      && ltb r.attempts r.max_attempts
      && leb r.run_at now
      && is_visible r

  unfoldable pub exhausted_rows : JobTable → List JobRow
  unfolding order_by
  exhausted_rows t = take 100 (order_by id_first (keep is_exhausted t))

  unfoldable pub candidates : ℕ → JobTable → List JobRow
  unfolding order_by
  candidates batch t =
      let pending_rows = take batch (order_by comes_first (keep is_due t)) in
      let expired_rows = take batch (order_by comes_first (keep is_expired t)) in
      take batch (order_by comes_first (pending_rows ++ expired_rows))

abbrev pub ok_or_none : Result (Interrupted JobError) (Option Instant) → Option Instant
ok_or_none (ok next) = next
ok_or_none (err e) = none

abbrev pub is_panic : Result (Interrupted JobError) (Option Instant) → Bool
is_panic (err panics) = true
is_panic _ = false

module _ (lib : CronLib) (now : Instant) where
  -- The next run of an exhausted row: `next_run_at(…).ok().flatten()`.
  unfoldable pub next_of : JobRow → Option Instant
  next_of r = ok_or_none (next_run_at lib r.schedule now)

  unfoldable pub finalized : Option Instant → JobRow → JobRow
  finalized none r = dead_lettered now exhausted_lease_error r
  finalized (some next) r = record (released now r) {
    state = pending;
    attempts = 0;
    run_at = next;
    last_error = some exhausted_lease_error;
  }

  -- The loop over the selected rows.
  unfoldable pub finalize_rows : List JobRow → JobTable → JobTable
  unfolding finalized
  finalize_rows [] t = t
  finalize_rows (e ∷ rest) t =
      finalize_rows rest (update_where (λ r. r.id == e.id) (finalized (next_of e)) t)

  -- A panic for any of the rows rolls the transaction back.
  unfoldable pub finalize_exhausted_leases :
      Fault
      → Option (List String)
      → (ℕ → Bool)
      → JobTable
      → JobTable × Result (Interrupted JobRepoError) (List ExhaustedLease)
  unfolding exhausted_rows finalize_rows
  finalize_exhausted_leases (some e) kinds locked t = (t, err (raised (db e)))
  finalize_exhausted_leases none kinds locked t =
      let rows = exhausted_rows now kinds locked t in
      if any (λ r. is_panic (next_run_at lib r.schedule now)) rows
      then (t, err panics)
      else (finalize_rows rows t, ok (map (λ (r : JobRow). exhausted_lease r) rows))
    where
      exhausted_lease : JobRow → ExhaustedLease
      exhausted_lease r = record { id = r.id; kind = r.kind; rescheduled_at = next_of r }

module _ (now : Instant) (worker_id : String) (lease_ttl : ℕ) where
  -- The `SET` items of a claim.
  unfoldable pub claimed : JobRow → JobRow
  claimed r = record r {
    state = running;
    claimed_by = some worker_id;
    lease_expires_at = some (now + lease_ttl);
    heartbeat_at = some now;
    started_at = or_else r.started_at (some now);
    attempts = r.attempts + 1;
    updated_at = now;
  }

  unfoldable pub returned : JobRow → ClaimedJob
  returned r = record {
    id = r.id;
    kind = r.kind;
    payload = r.payload;
    attempts = r.attempts;
    max_attempts = r.max_attempts;
    schedule = r.schedule;
    owner = worker_id;
  }

  abbrev pub is_among : List JobRow → JobRow → Bool
  is_among rows r = any (λ c. c.id == r.id) rows

  -- `UPDATE … FROM candidate c WHERE j.id = c.id RETURNING …`
  unfoldable pub claim_rows : List JobRow → JobTable → JobTable × List ClaimedJob
  claim_rows rows t = (
    update_where (is_among rows) claimed t,
    map (λ (r : JobRow). returned (claimed r)) (keep (is_among rows) t),
  )

  -- One mail job, by its id.
  unfoldable pub claim_id :
      Fault → ℕ → JobTable → JobTable × Result JobRepoError (Option ClaimedJob)
  claim_id (some e) id t = (t, err (db e))
  claim_id none id t =
      let claimable : JobRow → Bool = λ r.
        r.id == id
        && is_mail r
        && leb r.run_at now
        && ltb r.attempts r.max_attempts
        && (is_pending r.state || (is_running r.state && is_until r.lease_expires_at now)) in
      (
        update_where claimable claimed t,
        ok (first_row (map (λ (r : JobRow). returned (claimed r)) (keep claimable t))),
      )

  -- The claim itself, with what the sweep before it answers.
  unfoldable pub claim_swept :
      Fault
      → ℕ
      → Option (List String)
      → (ℕ → Bool)
      → JobTable × Result (Interrupted JobRepoError) (List ExhaustedLease)
      → JobTable × Result (Interrupted JobRepoError) (List ClaimedJob)
  unfolding claim_rows candidates
  claim_swept fault batch kinds locked (t, err e) = (t, err e)
  claim_swept (some e) batch kinds locked (t, ok leases) = (t, err (raised (db e)))
  claim_swept none batch kinds locked (t, ok leases) =
      let (t', jobs) = claim_rows (candidates now kinds locked batch t) t in (t', ok jobs)

  unfoldable pub claim_inner :
      CronLib
      → Fault
      → Fault
      → ℕ
      → Option (List String)
      → (ℕ → Bool)
      → JobTable
      → JobTable × Result (Interrupted JobRepoError) (List ClaimedJob)
  unfolding claim_swept finalize_exhausted_leases
  claim_inner lib sweep_fault fault batch kinds locked t =
      claim_swept fault batch kinds locked
        (finalize_exhausted_leases lib now sweep_fault kinds locked t)
