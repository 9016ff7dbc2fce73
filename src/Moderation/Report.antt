-- ===== src/Moderation/Report.antt =====
-- The table `report` and its statements (crates/infrastructure/src/moderation/report.rs; the partial
-- unique index is migration 0016). Ids are the primary key: a statement on an id acts on one row.
pub mod Consistent
pub mod Dedupe
use bikesnest.Prelude.{
  ℕ, suc, ◌+◌, String, Bool, true, false, ◌&&◌, ◌||◌, Option, none, some, List, [], ◌∷◌, ◌++◌,
  Result, ok, err, leb, ltb, ◌==◌, if◌then◌else◌, any, keep, take, max, min,
}
use bikesnest.Prelude.Int.{ℤ, pos, negsuc}
use bikesnest.Domain.Codes.ReportState.{ReportState, opened, under_review, resolved, dismissed}
use bikesnest.Domain.Codes.ReportTargetType.{ReportTargetType, as_code}
use bikesnest.Moderation.Error.{ModerationError, invalid_state, conflict}

pub data ReportOutcome : Type 0 where
  outcome_resolved outcome_dismissed : ReportOutcome

abbrev pub state_of : ReportOutcome → ReportState
state_of outcome_resolved = resolved
state_of outcome_dismissed = dismissed

pub record NewReport : Type 0 where
  pub reporter_id : ℕ
  pub target_type : ReportTargetType
  pub target_id : ℕ
  pub reason : String
  pub description : String

pub record Report : Type 0 where
  pub id : ℕ
  pub reporter_id : Option ℕ
  pub target_type : ReportTargetType
  pub target_id : ℕ
  pub reason : String
  pub description : String
  pub state : ReportState
  pub claimed_by : Option ℕ
  pub resolved_by : Option ℕ
  pub resolution_note : Option String
  pub created_at : ℕ
  pub updated_at : ℕ

-- What a statement meets: nothing, or an error.
abbrev pub Fault : Type 0
Fault = Option ModerationError

abbrev pub is_opened : ReportState → Bool
is_opened opened = true
is_opened _ = false

abbrev pub is_under_review : ReportState → Bool
is_under_review under_review = true
is_under_review _ = false

abbrev pub same_target : ReportTargetType → ReportTargetType → Bool
same_target ReportTargetType.parking ReportTargetType.parking = true
same_target ReportTargetType.parking_photo ReportTargetType.parking_photo = true
same_target ReportTargetType.review ReportTargetType.review = true
same_target ReportTargetType.review_photo ReportTargetType.review_photo = true
same_target _ _ = false

abbrev pub same_state : ReportState → ReportState → Bool
same_state opened opened = true
same_state under_review under_review = true
same_state resolved resolved = true
same_state dismissed dismissed = true
same_state _ _ = false

abbrev pub is_user : Option ℕ → ℕ → Bool
is_user none u = false
is_user (some v) u = v == u

-- `report_dedupe_idx`
abbrev pub clashes : NewReport → Report → Bool
clashes n r =
    is_user r.reporter_id n.reporter_id
    && same_target r.target_type n.target_type
    && (r.target_id == n.target_id)
    && (is_opened r.state || is_under_review r.state)

unfoldable pub find : ℕ → List Report → Option Report
find id [] = none
find id (r ∷ rest) = if r.id == id then some r else find id rest

-- `UPDATE report SET … WHERE id = $1 AND …`, and whether it affected its row.
unfoldable pub update_report :
    ℕ → (Report → Bool) → (Report → Report) → List Report → List Report × Bool
update_report id p set [] = ([], false)
update_report id p set (r ∷ rest) =
    let later = update_report id p set rest in
    if r.id == id
    then (if p r then (set r ∷ rest, true) else (r ∷ rest, false))
    else (r ∷ later.0, later.1)

abbrev pub affected : List Report × Bool → List Report × Result ModerationError (Unit {0})
affected (t, true) = (t, ok tt)
affected (t, false) = (t, err invalid_state)

-- The inserted row.
unfoldable pub new_report : ℕ → NewReport → ℕ → Report
new_report now n new_id = record {
  id = new_id;
  reporter_id = some n.reporter_id;
  target_type = n.target_type;
  target_id = n.target_id;
  reason = n.reason;
  description = n.description;
  state = opened;
  claimed_by = none;
  resolved_by = none;
  resolution_note = none;
  created_at = now;
  updated_at = now;
}

module _ (fault : Fault) (now : ℕ) (t : List Report) where
  unfoldable pub create : NewReport → ℕ → List Report × Result ModerationError ℕ
  unfolding new_report
  create n new_id = elim fault [
    | some e ↦ (t, err e)
    | none ↦
        if any (clashes n) t
        then (t, err conflict)
        else (t ++ new_report now n new_id ∷ [], ok new_id)
  ]

  unfoldable pub get : ℕ → Result ModerationError (Option Report)
  unfolding find
  get id = elim fault [ some e ↦ err e | none ↦ ok (find id t) ]

  unfoldable pub claim : ℕ → ℕ → List Report × Result ModerationError (Unit {0})
  unfolding update_report
  claim id moderator = elim fault [
    | some e ↦ (t, err e)
    | none ↦ affected (
        update_report id (λ r. is_opened r.state)
          (λ r. record r { state = under_review; claimed_by = some moderator; updated_at = now }) t)
  ]

  unfoldable pub resolve :
      ℕ → ℕ → String → ReportOutcome → List Report × Result ModerationError (Unit {0})
  unfolding update_report
  resolve id moderator note outcome = elim fault [
    | some e ↦ (t, err e)
    | none ↦ affected (
        update_report id (λ r. is_under_review r.state)
          (λ r. record r {
            state = state_of outcome;
            resolved_by = some moderator;
            resolution_note = some note;
            updated_at = now;
          })
          t)
  ]

-- `ORDER BY id ASC`
unfoldable pub insert_by_id : Report → List Report → List Report
insert_by_id a [] = a ∷ []
insert_by_id a (b ∷ rest) = if leb a.id b.id then a ∷ b ∷ rest else b ∷ insert_by_id a rest

unfoldable pub sort_by_id : List Report → List Report
unfolding insert_by_id
sort_by_id [] = []
sort_by_id (a ∷ rest) = insert_by_id a (sort_by_id rest)

-- `limit.clamp(1, 200)`
abbrev pub clamp_limit : ℤ → ℕ
clamp_limit (pos n) = min (max n 1) 200
clamp_limit (negsuc n) = 1

abbrev pub is_listed : Option ReportState → Option ℕ → Report → Bool
is_listed (some s) (some after) r = same_state r.state s && ltb after r.id
is_listed (some s) none r = same_state r.state s
is_listed none (some after) r = ltb after r.id
is_listed none none r = true

unfoldable pub list :
    Fault → List Report → Option ReportState → Option ℕ → ℤ → Result ModerationError (List Report)
unfolding sort_by_id
list (some e) t state after limit = err e
list none t state after limit =
    ok (take (clamp_limit limit) (sort_by_id (keep (is_listed state after) t)))
