-- ===== src/Job/Outcome/Collected.antt =====
-- What the garbage collection of the queue removes.
use bikesnest.Prelude.{
  ℕ, ◌≡◌, refl, ap, Bool, true, false, not, Option, none, some, [], ◌∷◌, ◌==◌, if◌then◌else◌, any,
  keep, Bool-cases, inl, inr, ==_iff, ltb, ◌&&◌,
}
use bikesnest.Json.{Json}
use bikesnest.Job.Schedule.{Instant}
use bikesnest.Job.Table.{
  JobRow, JobTable, JobState, pending, running, succeeded, is_terminal, is_before,
}
use bikesnest.Job.Table.Laws.{row_of, HasUniqueIds}
use bikesnest.Job.Outcome.{gc, is_collected, is_some}

abbrev if_kept : Instant → JobRow → Option JobRow
if_kept cutoff r = if is_collected cutoff r then none else some r

-- A selection has no row of an id that the table does not have.
row_of-keep :
    (p : JobRow → Bool) (id : ℕ) (t : JobTable)
    → any (λ u. u.id == id) t ≡ false
    → row_of id (keep p t) ≡ none
row_of-keep p id [] h = refl
row_of-keep p id (s ∷ t) h = elim (Bool-cases (s.id == id)) [
  | inl same ↦ absurd (cc (same, h))
  | inr other ↦ passed (p s) (row_of-keep p id t (rw other at h)) other
]
  where
    passed :
        (b : Bool)
        → row_of id (keep p t) ≡ none
        → (s.id == id) ≡ false
        → row_of id (if b then s ∷ keep p t else keep p t) ≡ none
    passed true h o = rw o h
    passed false h o = h

abbrev get_or : JobRow → Option JobRow → JobRow
get_or s none = s
get_or s (some r) = r

kept_row :
    (cutoff : Instant) (id : ℕ) (t : JobTable) (r : JobRow)
    → HasUniqueIds t
    → row_of id t ≡ some r
    → row_of id (keep (λ s. not (is_collected cutoff s)) t) ≡ if_kept cutoff r
kept_row cutoff id [] r u h = cc
kept_row cutoff id (s ∷ t) r u h = elim (Bool-cases (s.id == id)) [
  | inl same ↦
      here (is_collected cutoff s) refl same (ap (get_or s) (rw same at h))
        (row_of-keep (λ s. not (is_collected cutoff s)) id t (rw ((==_iff s.id id).0 same) at u.0))
  | inr other ↦
      passed (not (is_collected cutoff s)) other (kept_row cutoff id t r u.1 (rw other at h))
]
  where
    rest : JobTable
    rest = keep (λ s. not (is_collected cutoff s)) t

    here :
        (b : Bool)
        → is_collected cutoff s ≡ b
        → (s.id == id) ≡ true
        → s ≡ r
        → row_of id rest ≡ none
        → row_of id (if not b then s ∷ rest else rest) ≡ if_kept cutoff r
    here true c same e gone = rw (← e, c) gone
    here false c same e gone = rw (← e, c, same) refl

    passed :
        (b : Bool)
        → (s.id == id) ≡ false
        → row_of id rest ≡ if_kept cutoff r
        → row_of id (if b then s ∷ rest else rest) ≡ if_kept cutoff r
    passed true o e = rw o e
    passed false o e = e

-- Whether the end of a job, if it has one, lies before the cutoff.
abbrev pub ended_before : Instant → Option Instant → Bool
ended_before cutoff none = false
ended_before cutoff (some ended) = ltb ended cutoff

-- What the state says: a job that has not ended stays, and one that has ended, succeeded or not,
-- stays with a schedule, and goes without one if its end lies before the cutoff.
abbrev pub expendable_in : Instant → JobState → Option Json → Option Instant → Bool
expendable_in cutoff pending schedule ended = false
expendable_in cutoff running schedule ended = false
expendable_in cutoff state (some s) ended = false
expendable_in cutoff state none ended = ended_before cutoff ended

abbrev pub is_expendable : Instant → JobRow → Bool
is_expendable cutoff r = expendable_in cutoff r.state r.schedule r.finished_at

is_collected-eq :
    (cutoff : Instant) (state : JobState) (schedule : Option Json) (ended : Option Instant)
    → (is_terminal state && not (is_some schedule) && is_before ended cutoff)
      ≡ expendable_in cutoff state schedule ended
is_collected-eq cutoff pending schedule ended = refl
is_collected-eq cutoff running schedule ended = refl
is_collected-eq cutoff succeeded (some s) ended = refl
is_collected-eq cutoff succeeded none none = refl
is_collected-eq cutoff succeeded none (some t) = refl
is_collected-eq cutoff JobState.failed (some s) ended = refl
is_collected-eq cutoff JobState.failed none none = refl
is_collected-eq cutoff JobState.failed none (some t) = refl

-- On a table with unique ids, and when the statement meets no database error, the collection
-- decides by the state of a job: a pending or a running job stays, whatever its times; a job that
-- has succeeded or failed is removed if it has no schedule and has finished before the cutoff, and
-- stays if it has a schedule or no time of its end, or has finished at the cutoff or later. What
-- stays is unchanged.
pub gc_decides :
    (t : JobTable) (cutoff : Instant) (id : ℕ) (r : JobRow)
    → HasUniqueIds t
    → row_of id t ≡ some r
    → row_of id (gc none t cutoff).0 ≡ (if is_expendable cutoff r then none else some r)
unfolding gc
gc_decides t cutoff id r u h =
    rw (← is_collected-eq cutoff r.state r.schedule r.finished_at) (kept_row cutoff id t r u h)
