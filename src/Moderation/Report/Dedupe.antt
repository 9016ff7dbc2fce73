-- ===== src/Moderation/Report/Dedupe.antt =====
-- The partial unique index of migration 0016, kept by the statements.
use bikesnest.Prelude.{
  ℕ, ◌≡◌, refl, String, Bool, true, false, ◌&&◌, ◌||◌, Option, none, some, List, [], ◌∷◌, ◌++◌,
  arith, ◌==◌, if◌then◌else◌, any, Bool-cases, inl, inr,
}
use bikesnest.Domain.Codes.ReportState.{ReportState, opened, under_review, resolved, dismissed}
use bikesnest.Domain.Codes.ReportTargetType.{
  ReportTargetType, parking, parking_photo, review, review_photo,
}
use bikesnest.Moderation.Report.{
  NewReport, Report, ReportOutcome, Fault, is_opened, is_under_review, same_target, is_user,
  clashes, update_report, affected, create, claim, resolve, new_report,
}

abbrev pub is_active : Report → Bool
is_active r = is_opened r.state || is_under_review r.state

abbrev pub same_reporter : Option ℕ → Option ℕ → Bool
same_reporter none s = false
same_reporter (some u) s = is_user s u

-- Two reports that still wait for a decision, of one reporter on one target.
abbrev pub is_duplicate : Report → Report → Bool
is_duplicate r s =
    is_active r
    && is_active s
    && same_reporter r.reporter_id s.reporter_id
    && same_target s.target_type r.target_type
    && (s.target_id == r.target_id)

abbrev pub HasNoDuplicates : List Report → Type 0
HasNoDuplicates [] = Unit
HasNoDuplicates (r ∷ t) = (any (is_duplicate r) t ≡ false) × HasNoDuplicates t

both_false : (a b : Bool) → (a || b) ≡ false → (a ≡ false) × (b ≡ false)
both_false a b h = (ground arith, ground arith)

-- A row that `p` selects is active, and `set` keeps its subject.
module _ (id : ℕ) (p : Report → Bool) (set : Report → Report)
    (active : (r : Report) → p r ≡ true → is_active r ≡ true)
    (reporter : (r : Report) → (set r).reporter_id ≡ r.reporter_id)
    (kind : (r : Report) → (set r).target_type ≡ r.target_type)
    (target : (r : Report) → (set r).target_id ≡ r.target_id) where
  later-duplicate :
      (r s : Report) → p s ≡ true → is_duplicate r s ≡ false → is_duplicate r (set s) ≡ false
  later-duplicate r s h d =
      rw (reporter s, kind s, target s)
        (cut (is_active r) (is_active s) (is_active (set s))
          (same_reporter r.reporter_id s.reporter_id) (same_target s.target_type r.target_type)
          (s.target_id == r.target_id) (active s h) d)
    where
      cut :
          (a b b' c e f : Bool)
          → b ≡ true
          → (a && b && c && e && f) ≡ false
          → (a && b' && c && e && f) ≡ false
      cut a b b' c e f h d = ground arith

  earlier-duplicate :
      (r s : Report) → p r ≡ true → is_duplicate r s ≡ false → is_duplicate (set r) s ≡ false
  earlier-duplicate r s h d =
      rw (reporter r, kind r, target r)
        (cut (is_active r) (is_active (set r)) (is_active s)
          (same_reporter r.reporter_id s.reporter_id) (same_target s.target_type r.target_type)
          (s.target_id == r.target_id) (active r h) d)
    where
      cut :
          (a a' b c e f : Bool)
          → a ≡ true
          → (a && b && c && e && f) ≡ false
          → (a' && b && c && e && f) ≡ false
      cut a a' b c e f h d = ground arith

  any-earlier :
      (r : Report) (t : List Report)
      → p r ≡ true
      → any (is_duplicate r) t ≡ false
      → any (is_duplicate (set r)) t ≡ false
  any-earlier r [] h d = refl
  any-earlier r (s ∷ t) h d =
      let both = both_false (is_duplicate r s) (any (is_duplicate r) t) d in
      rw (earlier-duplicate r s h both.0, any-earlier r t h both.1) refl

  any-later :
      (r : Report) (t : List Report)
      → any (is_duplicate r) t ≡ false
      → any (is_duplicate r) (update_report id p set t).0 ≡ false
  unfolding update_report
  any-later r [] d = refl
  any-later r (s ∷ t) d =
      let both = both_false (is_duplicate r s) (any (is_duplicate r) t) d in
      elim (Bool-cases (s.id == id)) [
        | inr other ↦ rw other (rw (both.0, any-later r t both.1) refl)
        | inl same ↦ rw same (chosen (p s) refl both)
      ]
    where
      chosen :
          (b : Bool)
          → p s ≡ b
          → (is_duplicate r s ≡ false) × (any (is_duplicate r) t ≡ false)
          → let pair : List Report × Bool = if b then (set s ∷ t, true) else (s ∷ t, false) in
            any (is_duplicate r) pair.0 ≡ false
      chosen true e both = rw (later-duplicate r s e both.0, both.1) refl
      chosen false e both = rw (both.0, both.1) refl

  update-chosen :
      (s : Report) (t : List Report) (b : Bool)
      → p s ≡ b
      → HasNoDuplicates (s ∷ t)
      → let pair : List Report × Bool = if b then (set s ∷ t, true) else (s ∷ t, false) in
        HasNoDuplicates pair.0
  update-chosen s t true e h = (any-earlier s t e h.0, h.1)
  update-chosen s t false e h = h

  update-HasNoDuplicates :
      (t : List Report) → HasNoDuplicates t → HasNoDuplicates (update_report id p set t).0
  unfolding update_report
  update-HasNoDuplicates [] h = tt
  update-HasNoDuplicates (s ∷ t) h = elim (Bool-cases (s.id == id)) [
    | inr other ↦ rw other (any-later s t h.0, update-HasNoDuplicates t h.1)
    | inl same ↦ rw same (update-chosen s t (p s) refl h)
  ]

affected-HasNoDuplicates :
    (w : List Report × Bool) → HasNoDuplicates w.0 → HasNoDuplicates (affected w).0
affected-HasNoDuplicates (t, true) h = h
affected-HasNoDuplicates (t, false) h = h

claim-HasNoDuplicates :
    (f : Fault) (now : ℕ) (t : List Report) (id m : ℕ)
    → HasNoDuplicates t
    → HasNoDuplicates (claim f now t id m).0
unfolding claim
claim-HasNoDuplicates (some e) now t id m h = h
claim-HasNoDuplicates none now t id m h = affected-HasNoDuplicates _ (
    update-HasNoDuplicates id (λ r. is_opened r.state) _ (λ r e. rw e refl) (λ r. refl) (λ r. refl)
      (λ r. refl) t h)

resolve-HasNoDuplicates :
    (f : Fault) (now : ℕ) (t : List Report) (id m : ℕ) (note : String) (o : ReportOutcome)
    → HasNoDuplicates t
    → HasNoDuplicates (resolve f now t id m note o).0
unfolding resolve
resolve-HasNoDuplicates (some e) now t id m note o h = h
resolve-HasNoDuplicates none now t id m note o h = affected-HasNoDuplicates _ (
    update-HasNoDuplicates id (λ r. is_under_review r.state) _ (λ r e. under r.state e) (λ r. refl)
      (λ r. refl) (λ r. refl) t h)
  where
    under :
        (state : ReportState)
        → is_under_review state ≡ true
        → (is_opened state || is_under_review state) ≡ true
    under under_review e = refl
    under opened e = refl
    under resolved e = cc
    under dismissed e = cc

same_target_comm : (a b : ReportTargetType) → same_target a b ≡ same_target b a
same_target_comm parking parking = refl
same_target_comm parking parking_photo = refl
same_target_comm parking review = refl
same_target_comm parking review_photo = refl
same_target_comm parking_photo parking = refl
same_target_comm parking_photo parking_photo = refl
same_target_comm parking_photo review = refl
same_target_comm parking_photo review_photo = refl
same_target_comm review parking = refl
same_target_comm review parking_photo = refl
same_target_comm review review = refl
same_target_comm review review_photo = refl
same_target_comm review_photo parking = refl
same_target_comm review_photo parking_photo = refl
same_target_comm review_photo review = refl
same_target_comm review_photo review_photo = refl

==_comm : (a b : ℕ) → (a == b) ≡ (b == a)
==_comm a b = ground arith

same_reporter_comm : (o : Option ℕ) (u : ℕ) → same_reporter o (some u) ≡ is_user o u
same_reporter_comm none u = refl
same_reporter_comm (some v) u = ==_comm u v

unclashed :
    (now : ℕ) (n : NewReport) (new_id : ℕ) (r : Report)
    → clashes n r ≡ false
    → is_duplicate r (new_report now n new_id) ≡ false
unfolding new_report
unclashed now n new_id r h =
    rw
      (
        same_reporter_comm r.reporter_id n.reporter_id,
        same_target_comm n.target_type r.target_type,
        ==_comm n.target_id r.target_id,
      )
      (swap (is_user r.reporter_id n.reporter_id) (same_target r.target_type n.target_type)
        (r.target_id == n.target_id) (is_active r) h)
  where
    swap : (a b c d : Bool) → (a && b && c && d) ≡ false → (d && true && a && b && c) ≡ false
    swap a b c d h = ground arith

any-appended :
    (p : Report → Bool) (t : List Report) (r : Report)
    → any p t ≡ false
    → p r ≡ false
    → any p (t ++ r ∷ []) ≡ false
any-appended p [] r h e = rw e refl
any-appended p (s ∷ t) r h e =
    let both = both_false (p s) (any p t) h in rw (both.0, any-appended p t r both.1 e) refl

appended-HasNoDuplicates :
    (now : ℕ) (n : NewReport) (new_id : ℕ) (t : List Report)
    → HasNoDuplicates t
    → any (clashes n) t ≡ false
    → HasNoDuplicates (t ++ new_report now n new_id ∷ [])
appended-HasNoDuplicates now n new_id [] h e = (refl, tt)
appended-HasNoDuplicates now n new_id (r ∷ t) h e =
    let both = both_false (clashes n r) (any (clashes n) t) e in
    (
      any-appended (is_duplicate r) t (new_report now n new_id) h.0
          (unclashed now n new_id r both.0),
      appended-HasNoDuplicates now n new_id t h.1 both.1,
    )

-- A report that clashes with none is a duplicate of none.
create-HasNoDuplicates :
    (f : Fault) (now : ℕ) (t : List Report) (n : NewReport) (new_id : ℕ)
    → HasNoDuplicates t
    → HasNoDuplicates (create f now t n new_id).0
unfolding create
create-HasNoDuplicates (some e) now t n new_id h = h
create-HasNoDuplicates none now t n new_id h = elim (Bool-cases (any (clashes n) t)) [
  | inl e ↦ rw e h
  | inr e ↦ rw e (appended-HasNoDuplicates now n new_id t h e)
]

-- No reporter has two undecided reports on one target: whatever is submitted, claimed or resolved, and
-- whether or not the statement fails, each statement leaves a table without such duplicates if it
-- finds one.
pub statements-HasNoDuplicates :
    (f : Fault) (now : ℕ) (t : List Report) (n : NewReport) (id m : ℕ) (note : String)
    (o : ReportOutcome)
    → HasNoDuplicates t
    → HasNoDuplicates (create f now t n id).0
      × HasNoDuplicates (claim f now t id m).0
      × HasNoDuplicates (resolve f now t id m note o).0
statements-HasNoDuplicates f now t n id m note o h = (
  create-HasNoDuplicates f now t n id h,
  claim-HasNoDuplicates f now t id m h,
  resolve-HasNoDuplicates f now t id m note o h,
)
