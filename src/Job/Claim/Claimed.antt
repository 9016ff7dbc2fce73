-- ===== src/Job/Claim/Claimed.antt =====
-- Whom a claim concerns: the rows that claim_inner passes over stay as they are.
use bikesnest.Prelude.{
  ℕ, ◌≡◌, String, Bool, false, ◌&&◌, Option, none, some, List, any, Result, ok, err, [], ◌∷◌, ◌==◌,
  Bool-cases, inl, inr, All, refl,
}
use bikesnest.Job.Schedule.{next_run_at, Instant, CronLib}
use bikesnest.Job.Error.{JobRepoError, db, Interrupted, raised, panics}
use bikesnest.Job.Table.{
  JobRow, JobTable, Fault, is_running, is_before, is_mail, is_pending, scrubbed, dead_lettered,
}
use bikesnest.Job.Table.Laws.{row_of, id-row_of, HasUniqueIds, row_of-update, HasUniqueIds-update}
use bikesnest.Job.Claim.{
  is_exhausted, is_due, is_expired, exhausted_rows, candidates, next_of, finalized, finalize_rows,
  finalize_exhausted_leases, claim_swept, is_panic, ExhaustedLease, claimed, claim_rows,
  claim_inner, is_among, comes_first, id_first,
}
use bikesnest.Job.Claim.Selected.{
  Other, All-selected, All-merged, kept-Other, among-Other, other_flip,
}

-- The sweep keeps ids, and the rows that it does not select.
module _ (lib : CronLib) (now : Instant) where
  pub finalized_id : (next : Option Instant) (r : JobRow) → (finalized lib now next r).id ≡ r.id
  unfolding finalized dead_lettered scrubbed
  finalized_id none r = elim (Bool-cases (is_mail r)) [ inl e ↦ rw e refl | inr e ↦ rw e refl ]
  finalized_id (some next) r = refl

  pub row_of-finalize_rows :
      (rows : List JobRow) (t : JobTable) (id : ℕ) (r : JobRow)
      → row_of id t ≡ some r
      → r.id ≡ id
      → All (Other id) rows
      → row_of id (finalize_rows lib now rows t) ≡ some r
  unfolding finalize_rows
  row_of-finalize_rows [] t id r h i o = h
  row_of-finalize_rows (e ∷ rows) t id r h i o =
      row_of-finalize_rows rows _ id r
        (rw (other_flip e.id r.id id o.0 i) at (
          row_of-update (λ r. r.id == e.id) (finalized lib now (next_of lib now e))
            (finalized_id (next_of lib now e)) id t r h))
        i o.1

  pub HasUniqueIds-finalize_rows :
      (rows : List JobRow) (t : JobTable)
      → HasUniqueIds t
      → HasUniqueIds (finalize_rows lib now rows t)
  unfolding finalize_rows
  HasUniqueIds-finalize_rows [] t u = u
  HasUniqueIds-finalize_rows (e ∷ rows) t u = HasUniqueIds-finalize_rows rows _ (
      HasUniqueIds-update (λ r. r.id == e.id) (finalized lib now (next_of lib now e))
        (finalized_id (next_of lib now e)) t u)

-- The claim itself.
pub claimed_id :
    (now : Instant) (worker_id : String) (ttl : ℕ) (r : JobRow)
    → (claimed now worker_id ttl r).id ≡ r.id
unfolding claimed
claimed_id now worker_id ttl r = refl

module _ (now : Instant) (kinds : Option (List String)) (locked : ℕ → Bool) (id : ℕ) (t : JobTable)
    (r : JobRow) (u : HasUniqueIds t) (found : row_of id t ≡ some r) where
  pub exhausted_rows-Other :
      is_exhausted now kinds locked r ≡ false → All (Other id) (exhausted_rows now kinds locked t)
  unfolding exhausted_rows
  exhausted_rows-Other e =
      All-selected (Other id) 100 id_first _
        (kept-Other (is_exhausted now kinds locked) id t r u found e)

  pub candidates-Other :
      (batch : ℕ)
      → is_due now kinds locked r ≡ false
      → is_expired now kinds locked r ≡ false
      → All (Other id) (candidates now kinds locked batch t)
  unfolding candidates
  candidates-Other batch d e =
      All-merged (Other id) batch comes_first _ _
        (kept-Other (is_due now kinds locked) id t r u found d)
        (kept-Other (is_expired now kinds locked) id t r u found e)

  row_of-claim_rows :
      (worker_id : String) (ttl : ℕ) (rows : List JobRow)
      → All (Other id) rows
      → row_of id (claim_rows now worker_id ttl rows t).0 ≡ some r
  unfolding claim_rows
  row_of-claim_rows worker_id ttl rows o =
      rw (among-Other rows r (rw (id-row_of id t r found) o)) at (
        row_of-update (is_among now worker_id ttl rows) (claimed now worker_id ttl)
          (claimed_id now worker_id ttl) id t r found)

-- A claim on the table that the sweep leaves.
claim_swept-live_kept :
    (fault : Fault) (now : Instant) (kinds : Option (List String)) (locked : ℕ → Bool)
    (worker_id : String) (ttl batch id : ℕ) (t : JobTable) (r : JobRow)
    (answer : Result (Interrupted JobRepoError) (List ExhaustedLease))
    → HasUniqueIds t
    → row_of id t ≡ some r
    → is_pending r.state ≡ false
    → (is_running r.state && is_before r.lease_expires_at now) ≡ false
    → row_of id (claim_swept now worker_id ttl fault batch kinds locked (t, answer)).0 ≡ some r
unfolding claim_swept
claim_swept-live_kept f now kinds locked worker_id ttl batch id t r (err e) u found p l = found
claim_swept-live_kept (some e) now kinds locked worker_id ttl batch id t r (ok s) u found p l =
    found
claim_swept-live_kept none now kinds locked worker_id ttl batch id t r (ok s) u found p l =
    row_of-claim_rows now kinds locked id t r u found worker_id ttl _
      (candidates-Other now kinds locked id t r u found batch (rw p refl) (rw l refl))

-- On a table with unique ids, a claim takes nothing from a worker whose lease still runs, and leaves a job that has ended alone:
-- a row that is not pending, and whose lease, if it is running, has not run out, is the same after the
-- claim, whichever of its transactions fails.
pub claim_inner-live_kept :
    (lib : CronLib) (sweep_fault claim_fault : Fault) (now : Instant) (kinds : Option (List String))
    (locked : ℕ → Bool) (worker_id : String) (ttl batch id : ℕ) (t : JobTable) (r : JobRow)
    → HasUniqueIds t
    → row_of id t ≡ some r
    → is_pending r.state ≡ false
    → (is_running r.state && is_before r.lease_expires_at now) ≡ false
    → row_of id (claim_inner now worker_id ttl lib sweep_fault claim_fault batch kinds locked t).0
      ≡ some r
unfolding claim_inner finalize_exhausted_leases
claim_inner-live_kept lib (some e) f now kinds locked worker_id ttl batch id t r u found p l =
    claim_swept-live_kept f now kinds locked worker_id ttl batch id t r (err (raised (db e))) u
      found p l
claim_inner-live_kept lib none f now kinds locked worker_id ttl batch id t r u found p l =
    elim (Bool-cases (any (λ r. is_panic (next_run_at lib r.schedule now)) rows)) [
      | inl bad ↦ rw bad (
          claim_swept-live_kept f now kinds locked worker_id ttl batch id t r (err panics) u found p
            l)
      | inr fine ↦ rw fine (
          claim_swept-live_kept f now kinds locked worker_id ttl batch id
            (finalize_rows lib now rows t) r (ok _) (HasUniqueIds-finalize_rows lib now rows t u)
            swept p l)
    ]
  where
    rows : List JobRow
    rows = exhausted_rows now kinds locked t

    swept : row_of id (finalize_rows lib now rows t) ≡ some r
    swept =
        row_of-finalize_rows lib now rows t id r found (id-row_of id t r found)
          (exhausted_rows-Other now kinds locked id t r u found (rw l refl))
