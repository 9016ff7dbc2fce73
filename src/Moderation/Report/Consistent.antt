-- ===== src/Moderation/Report/Consistent.antt =====
-- Who may have acted on a report in each of its states, and that the statements keep it so.
use bikesnest.Prelude.{
  ℕ, ◌≡◌, refl, String, Bool, true, false, not, Option, none, some, List, [], ◌∷◌, ◌++◌, ◌==◌,
  if◌then◌else◌, any, Bool-cases, inl, inr, All, ap, sym, ◌∙◌,
}
use bikesnest.Domain.Codes.ReportState.{ReportState, opened, under_review, resolved, dismissed}
use bikesnest.Moderation.Report.{
  NewReport, Report, ReportOutcome, outcome_resolved, outcome_dismissed, state_of, create,
  new_report, claim, resolve, Fault, find, update_report, affected, clashes, is_opened,
  is_under_review, is_user,
}

-- Who has acted on a report in each state: nobody on an open one, one that has claimed it on one under
-- review, and a third party that has decided on one that has been resolved or dismissed.
abbrev pub is_consistent : ReportState → Option ℕ → Option ℕ → Option ℕ → Bool
is_consistent opened reporter none none = true
is_consistent under_review reporter (some c) none = true
is_consistent resolved reporter (some c) (some m) = not (is_user reporter m)
is_consistent dismissed reporter (some c) (some m) = not (is_user reporter m)
is_consistent _ _ _ _ = false

abbrev pub IsConsistent : Report → Type 0
IsConsistent r = is_consistent r.state r.reporter_id r.claimed_by r.resolved_by ≡ true

-- An update of the row of an id keeps what holds of all rows if it keeps it of that row.
All-update_report :
    (id : ℕ) (p : Report → Bool) (set : Report → Report) (t : List Report)
    → ((r : Report) → find id t ≡ some r → IsConsistent r → p r ≡ true → IsConsistent (set r))
    → All IsConsistent t
    → All IsConsistent (update_report id p set t).0
unfolding update_report find
All-update_report id p set [] step h = tt
All-update_report id p set (r ∷ t) step h = elim (Bool-cases (r.id == id)) [
  | inl same ↦ rw same (here (p r) refl (step r (rw same refl) h.0))
  | inr other ↦ rw other (h.0, All-update_report id p set t (λ s e. step s (rw other e)) h.1)
]
  where
    here :
        (b : Bool)
        → p r ≡ b
        → (p r ≡ true → IsConsistent (set r))
        → let pair : List Report × Bool = if b then (set r ∷ t, true) else (r ∷ t, false) in
          All IsConsistent pair.0
    here true e f = (f e, h.1)
    here false e f = h

affected-IsConsistent :
    (w : List Report × Bool) → All IsConsistent w.0 → All IsConsistent (affected w).0
affected-IsConsistent (t, true) h = h
affected-IsConsistent (t, false) h = h

-- The two moves of a report.
claimed-IsConsistent :
    (state : ReportState) (reporter c m : Option ℕ) (by : ℕ)
    → is_consistent state reporter c m ≡ true
    → is_opened state ≡ true
    → is_consistent under_review reporter (some by) m ≡ true
claimed-IsConsistent opened reporter none none by c o = refl
claimed-IsConsistent opened reporter none (some m) by c o = cc
claimed-IsConsistent opened reporter (some x) m by c o = cc
claimed-IsConsistent under_review reporter x m by c o = cc
claimed-IsConsistent resolved reporter x m by c o = cc
claimed-IsConsistent dismissed reporter x m by c o = cc

decided-IsConsistent :
    (state : ReportState) (reporter c m : Option ℕ) (by : ℕ) (outcome : ReportOutcome)
    → is_consistent state reporter c m ≡ true
    → is_under_review state ≡ true
    → is_user reporter by ≡ false
    → is_consistent (state_of outcome) reporter c (some by) ≡ true
decided-IsConsistent under_review reporter (some x) none by outcome_resolved c o h = rw h refl
decided-IsConsistent under_review reporter (some x) none by outcome_dismissed c o h = rw h refl
decided-IsConsistent under_review reporter (some x) (some m) by outcome c o h = cc
decided-IsConsistent under_review reporter none m by outcome c o h = cc
decided-IsConsistent opened reporter x m by outcome c o h = cc
decided-IsConsistent resolved reporter x m by outcome c o h = cc
decided-IsConsistent dismissed reporter x m by outcome c o h = cc

pub claim-IsConsistent :
    (f : Fault) (now : ℕ) (t : List Report) (id m : ℕ)
    → All IsConsistent t
    → All IsConsistent (claim f now t id m).0
unfolding claim
claim-IsConsistent (some e) now t id m h = h
claim-IsConsistent none now t id m h = affected-IsConsistent _ (
    All-update_report id _ _ t
      (λ r e c o. claimed-IsConsistent r.state r.reporter_id r.claimed_by r.resolved_by m c o) h)

Option_inj : (a b : Report) → some a ≡ some b → a ≡ b
Option_inj a b h = ap (λ o. elim o [ none ↦ a | some x ↦ x ]) h

pub resolve-IsConsistent :
    (f : Fault) (now : ℕ) (t : List Report) (id m : ℕ) (note : String) (o : ReportOutcome)
    (found : Report)
    → find id t ≡ some found
    → is_user found.reporter_id m ≡ false
    → All IsConsistent t
    → All IsConsistent (resolve f now t id m note o).0
unfolding resolve
resolve-IsConsistent (some e) now t id m note o found h other c = c
resolve-IsConsistent none now t id m note o found h other c = affected-IsConsistent _ (
    All-update_report id _ _ t
      (λ r e k u.
        decided-IsConsistent r.state r.reporter_id r.claimed_by r.resolved_by m o k u
          (rw (Option_inj found r (sym h ∙ e)) at other))
      c)

pub create-IsConsistent :
    (f : Fault) (now : ℕ) (t : List Report) (n : NewReport) (new_id : ℕ)
    → All IsConsistent t
    → All IsConsistent (create f now t n new_id).0
unfolding create new_report
create-IsConsistent (some e) now t n new_id h = h
create-IsConsistent none now t n new_id h = elim (Bool-cases (any (clashes n) t)) [
  | inl e ↦ rw e h
  | inr e ↦ rw e (appended t _ h refl)
]
  where
    appended :
        (t : List Report) (r : Report)
        → All IsConsistent t
        → IsConsistent r
        → All IsConsistent (t ++ r ∷ [])
    appended [] r h k = (k, tt)
    appended (s ∷ t) r h k = (h.0, appended t r h.1 k)
