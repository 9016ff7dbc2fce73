-- ===== src/Job/Claim/Budget.antt =====
-- Attempts stay within their budget: a claim counts one attempt, and takes only what has one left.
use bikesnest.Prelude.{
  ℕ, ◌≡◌, refl, String, Bool, true, ◌&&◌, ◌||◌, not, Option, none, some, List, Result, ok, err, [],
  ◌∷◌, ltb, leb, any, ◌==◌, arith, Bool-cases, inl, inr, All, if◌then◌else◌,
}
use bikesnest.Job.Schedule.{next_run_at, Instant, CronLib}
use bikesnest.Job.Error.{JobRepoError, db, Interrupted, raised, panics}
use bikesnest.Job.Table.{
  JobRow, JobTable, Fault, is_pending, update_where, dead_lettered, scrubbed, is_mail,
}
use bikesnest.Job.Table.Laws.{HasUniqueIds, IsRowOf, rows-IsRowOf}
use bikesnest.Job.Claim.{
  is_due, is_expired, candidates, next_of, finalized, finalize_rows, finalize_exhausted_leases,
  claim_swept, is_panic, ExhaustedLease, claimed, claim_rows, claim_inner, is_among, exhausted_rows,
}
use bikesnest.Job.Claim.Selected.{among-Other}
use bikesnest.Job.Claim.Claimed.{candidates-Other, HasUniqueIds-finalize_rows}

-- A job has a budget, has not overspent it, and has an attempt left while it waits.
abbrev pub IsInBudget : JobRow → Type 0
IsInBudget r =
    (ltb 0 r.max_attempts
      && leb r.attempts r.max_attempts
      && (not (is_pending r.state) || ltb r.attempts r.max_attempts))
    ≡ true

-- An update keeps a property of rows if it does so on the rows that it selects.
All-update :
    (Q R : JobRow → Type 0) (p : JobRow → Bool) (set : JobRow → JobRow) (t : JobTable)
    → ((r : JobRow) → Q r → R r → p r ≡ true → Q (set r))
    → All Q t
    → All R t
    → All Q (update_where p set t)
unfolding update_where
All-update Q R p set [] step q w = tt
All-update Q R p set (r ∷ t) step q w = (first, All-update Q R p set t step q.1 w.1)
  where
    first : Q (if p r then set r else r)
    first = elim (Bool-cases (p r)) [ inl e ↦ rw e (step r q.0 w.0 e) | inr e ↦ rw e q.0 ]

finalized-IsInBudget :
    (lib : CronLib) (now : Instant) (next : Option Instant) (r : JobRow)
    → IsInBudget r
    → IsInBudget (finalized lib now next r)
unfolding finalized dead_lettered scrubbed
finalized-IsInBudget lib now (some next) r h = ground arith
finalized-IsInBudget lib now none r h = elim (Bool-cases (is_mail r)) [
  | inl e ↦ rw e (ground arith)
  | inr e ↦ rw e (ground arith)
]

finalize_rows-IsInBudget :
    (lib : CronLib) (now : Instant) (rows t : JobTable)
    → All IsInBudget t
    → All IsInBudget (finalize_rows lib now rows t)
unfolding finalize_rows
finalize_rows-IsInBudget lib now [] t q = q
finalize_rows-IsInBudget lib now (e ∷ rows) t q = finalize_rows-IsInBudget lib now rows _ (
    All-update IsInBudget IsInBudget (λ r. r.id == e.id) (finalized lib now (next_of lib now e)) t
      (λ r h w e'. finalized-IsInBudget lib now (next_of lib now e) r h) q q)

-- What a claim takes was due, or had an expired lease and an attempt left.
candidate-claimable :
    (now : Instant) (kinds : Option (List String)) (locked : ℕ → Bool) (batch : ℕ) (t : JobTable)
    (r : JobRow)
    → HasUniqueIds t
    → IsRowOf t r
    → any (λ c. c.id == r.id) (candidates now kinds locked batch t) ≡ true
    → (is_due now kinds locked r || is_expired now kinds locked r) ≡ true
candidate-claimable now kinds locked batch t r u found h =
    elim (Bool-cases (is_due now kinds locked r)) [
      | inl d ↦ rw d refl
      | inr d ↦ elim (Bool-cases (is_expired now kinds locked r)) [
        | inl e ↦ rw (d, e) refl
        | inr e ↦
            absurd (
              cc
                (h, among-Other _ r (candidates-Other now kinds locked r.id t r u found batch d e)))
      ]
    ]

claimed-IsInBudget :
    (now : Instant) (kinds : Option (List String)) (locked : ℕ → Bool) (worker_id : String)
    (ttl : ℕ) (r : JobRow)
    → IsInBudget r
    → (is_due now kinds locked r || is_expired now kinds locked r) ≡ true
    → IsInBudget (claimed now worker_id ttl r)
unfolding claimed
claimed-IsInBudget now kinds locked worker_id ttl r h c = ground arith

-- A claim on the table that the sweep leaves.
claim_swept-IsInBudget :
    (fault : Fault) (now : Instant) (kinds : Option (List String)) (locked : ℕ → Bool)
    (worker_id : String) (ttl batch : ℕ) (t : JobTable)
    (answer : Result (Interrupted JobRepoError) (List ExhaustedLease))
    → HasUniqueIds t
    → All IsInBudget t
    → All IsInBudget (claim_swept now worker_id ttl fault batch kinds locked (t, answer)).0
unfolding claim_swept
claim_swept-IsInBudget fault now kinds locked worker_id ttl batch t (err e) u q = q
claim_swept-IsInBudget (some e) now kinds locked worker_id ttl batch t (ok leases) u q = q
claim_swept-IsInBudget none now kinds locked worker_id ttl batch t (ok leases) u q =
    unfold claim_rows in
    All-update IsInBudget (IsRowOf t)
      (is_among now worker_id ttl (candidates now kinds locked batch t)) (claimed now worker_id ttl)
      t
      (λ r h w e.
        claimed-IsInBudget now kinds locked worker_id ttl r h
          (candidate-claimable now kinds locked batch t r u w e))
      q (rows-IsRowOf t u)

-- On a table with unique ids, however claims, their sweeps and the failures of their transactions go, no job is attempted more
-- often than its budget allows, and each waiting job has an attempt left: both are kept by a claim.
pub claim_inner-IsInBudget :
    (lib : CronLib) (sweep_fault claim_fault : Fault) (now : Instant) (kinds : Option (List String))
    (locked : ℕ → Bool) (worker_id : String) (ttl batch : ℕ) (t : JobTable)
    → HasUniqueIds t
    → All IsInBudget t
    → All IsInBudget
        (claim_inner now worker_id ttl lib sweep_fault claim_fault batch kinds locked t).0
unfolding claim_inner finalize_exhausted_leases
claim_inner-IsInBudget lib (some e) f now kinds locked worker_id ttl batch t u q =
    claim_swept-IsInBudget f now kinds locked worker_id ttl batch t (err (raised (db e))) u q
claim_inner-IsInBudget lib none f now kinds locked worker_id ttl batch t u q =
    let rows = exhausted_rows now kinds locked t in
    elim (Bool-cases (any (λ r. is_panic (next_run_at lib r.schedule now)) rows)) [
      | inl bad ↦
          rw bad (claim_swept-IsInBudget f now kinds locked worker_id ttl batch t (err panics) u q)
      | inr fine ↦ rw fine (
          claim_swept-IsInBudget f now kinds locked worker_id ttl batch
            (finalize_rows lib now rows t) (ok _) (HasUniqueIds-finalize_rows lib now rows t u)
            (finalize_rows-IsInBudget lib now rows t q))
    ]
