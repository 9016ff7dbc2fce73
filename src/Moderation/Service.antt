-- ===== src/Moderation/Service.antt =====
-- ModerationService: submitting, claiming and resolving reports (crates/application/src/moderation.rs).
-- What it asks of the rate limiter and of the moderated contents is an interface; the reports and the
-- audit log are its own state.
pub mod Lifecycle
pub mod Reach
use bikesnest.Prelude.{
  ℕ, suc, String, ◌+++◌, Bool, true, false, ◌||◌, not, Option, none, some, List, [], ◌∷◌, ◌++◌,
  Result, ok, err, any, if◌then◌else◌, show_ℕ, ◌==◌,
}
use bikesnest.Prelude.Int.{pos}
use bikesnest.Json.{Json, object, field, end, string, int}
use bikesnest.Domain.Error.{DomainError, domain_error_text}
use bikesnest.Domain.Codes.Role.{Role, moderator, admin, user}
use bikesnest.Domain.Codes.ReportTargetType.{
  ReportTargetType, parking, parking_photo, review, review_photo, as_code,
}
use bikesnest.Moderation.Error.{
  ModerationError, not_authorized, self_resolve, not_found, target_not_found, invalid_state,
  already_reported, invalid_reason, rate_limited, conflict, internal, invalid_field,
}
use bikesnest.Moderation.Rules.{is_known_report_reason, reason_allowed_for, description_of}
use bikesnest.Moderation.Report.{
  NewReport, Report, ReportOutcome, outcome_resolved, outcome_dismissed, create, get, claim,
  resolve, Fault, is_user,
}

-- What the service reads of the session's user.
pub record AuthenticatedUser : Type 0 where
  pub id : ℕ
  pub roles : List Role

pub record AuditEvent : Type 0 where
  pub actor_user_id : Option ℕ
  pub action : String
  pub target_type : String
  pub target_id : String
  pub result : String
  pub metadata : Json

-- The operations on the rate limiter and on the moderated contents, whose state is `World`. A check of
-- the limiter gives none where the limiter fails.
pub record Ports : Type 1 where
  pub World : Type 0
  pub check : World → String → ℕ → ℕ → World × Option Bool
  pub target_exists : World → ReportTargetType → ℕ → Result ModerationError Bool
  pub hide_review : World → ℕ → ℕ → World × Result ModerationError (Unit {0})
  pub hide_parking_photo : World → ℕ → ℕ → World × Result ModerationError (Unit {0})
  pub hide_review_photo : World → ℕ → ℕ → World × Result ModerationError (Unit {0})
  pub invalidate_active_parking : World → ℕ → ℕ → World × Result ModerationError (Unit {0})

-- The limits, and what the statements of one request meet.
pub record ModerationLimits : Type 0 where
  pub report_description_max_len : ℕ
  pub report_create_user_limit : ℕ
  pub report_create_ip_limit : ℕ

pub record Faults : Type 0 where
  pub on_get : Fault
  pub on_write : Fault
  pub on_audit : Bool

-- `DAY`, in seconds
abbrev pub day : ℕ
day = 86_400

abbrev pub same_role : Role → Role → Bool
same_role user user = true
same_role moderator moderator = true
same_role admin admin = true
same_role _ _ = false

unfoldable pub has_role : AuthenticatedUser → Role → Bool
has_role u role = any (same_role role) u.roles

abbrev pub is_moderator : AuthenticatedUser → Bool
is_moderator u = has_role u moderator || has_role u admin

module _ (ports : Ports) where
  open ports use {
    World, check, target_exists, hide_review, hide_parking_photo, hide_review_photo,
    invalidate_active_parking,
  }

  pub record Desk : Type 0 where
    pub reports : List Report
    pub audit_log : List AuditEvent
    pub world : World

  -- A request: it changes the desk and gives a result; an error ends it, what was written stays.
  abbrev pub Request : Type 0 → Type 0
  Request A = Desk → Desk × Result ModerationError A

  infixl 5 ◌>>=◌ ◌>>◌
  unfoldable pub continue :
      {A B : Type 0}
      → (A → Request B)
      → Desk × Result ModerationError A
      → Desk × Result ModerationError B
  continue k (d, ok a) = k a d
  continue k (d, err e) = (d, err e)

  unfoldable pub ◌>>=◌ : {A B : Type 0} → Request A → (A → Request B) → Request B
  unfolding continue
  (m >>= k) d = continue k (m d)

  abbrev pub ◌>>◌ : {B : Type 0} → Request (Unit {0}) → Request B → Request B
  m >> k = m >>= λ _. k

  abbrev pub give : {A : Type 0} → A → Request A
  give a d = (d, ok a)

  unfoldable pub refuse_unless : Bool → ModerationError → Request (Unit {0})
  refuse_unless true e d = (d, ok tt)
  refuse_unless false e d = (d, err e)

  abbrev pub lift : {A : Type 0} → Result ModerationError A → Request A
  lift r d = (d, r)

  -- A port's answer, with the state that it leaves.
  unfoldable pub outside : {A : Type 0} → (World → World × Result ModerationError A) → Request A
  outside op d = let (w, r) = op d.world in (record d { world = w }, r)

  unfoldable pub on_reports :
      {A : Type 0} → (List Report → List Report × Result ModerationError A) → Request A
  on_reports op d = let (t, r) = op d.reports in (record d { reports = t }, r)

  unfoldable pub require_moderator : AuthenticatedUser → Request (Unit {0})
  unfolding has_role
  require_moderator u = refuse_unless (is_moderator u) not_authorized

  abbrev pub allowance : Option Bool → Result ModerationError (Unit {0})
  allowance (some true) = ok tt
  allowance (some false) = err rate_limited
  allowance none = err rate_limited

  unfoldable pub allowed : String → ℕ → ℕ → Request (Unit {0})
  allowed key limit window =
      outside (λ w. let (w', r) = check w key limit window in (w', allowance r))

  -- `audit`; a failure of the log is `internal`.
  unfoldable pub audit : Bool → ℕ → String → ℕ → Json → Request (Unit {0})
  audit true actor action target_id metadata d = (d, err internal)
  audit false actor action target_id metadata d = (
    record d {
      audit_log =
          record {
            actor_user_id = some actor;
            action = action;
            target_type = "report";
            target_id = show_ℕ target_id;
            result = "success";
            metadata = metadata;
          }
          ∷ d.audit_log;
    },
    ok tt,
  )

  unfoldable pub of_domain : {A : Type 0} → Result DomainError A → Result ModerationError A
  unfolding domain_error_text
  of_domain (ok a) = ok a
  of_domain (err e) = err (invalid_field (domain_error_text e))

  abbrev pub already : {A : Type 0} → Result ModerationError A → Result ModerationError A
  already (ok a) = ok a
  already (err conflict) = err already_reported
  already (err e) = err e

  abbrev pub submitted_metadata : ReportTargetType → ℕ → String → Json
  submitted_metadata target_type target_id reason = object (
      field "target_type" (string (as_code target_type))
        (field "target_id" (int (pos target_id)) (field "reason" (string reason) end)))

  module _ (limits : ModerationLimits) (f : Faults) (now : ℕ) where
    -- `new_id` is what the identity column gives.
    unfoldable pub submit_report :
        AuthenticatedUser → String → ℕ → ReportTargetType → ℕ → String → Option String → Request ℕ
    unfolding allowed audit is_known_report_reason reason_allowed_for description_of create as_code
        of_domain
    submit_report u ip new_id target_type target_id reason description = do
      allowed ("report:create:user:" +++ show_ℕ u.id) limits.report_create_user_limit day
      allowed ("report:create:ip:" +++ ip) limits.report_create_ip_limit day
      refuse_unless (is_known_report_reason reason) invalid_reason
      refuse_unless (reason_allowed_for target_type reason) invalid_reason
      text ← lift (of_domain (description_of description limits.report_description_max_len))
      exists ← λ d. (d, target_exists d.world target_type target_id)
      refuse_unless exists target_not_found
      id ← on_reports (λ t.
          let (t', r) =
            create f.on_write now t
              record {
                reporter_id = u.id;
                target_type = target_type;
                target_id = target_id;
                reason = reason;
                description = text;
              }
              new_id in
          (t', already r))
      audit f.on_audit u.id "report.created" id (submitted_metadata target_type target_id reason)
      give id

    unfoldable pub claim_report : AuthenticatedUser → ℕ → Request (Unit {0})
    unfolding require_moderator audit claim
    claim_report u id = do
      require_moderator u
      on_reports (λ t. claim f.on_write now t id u.id)
      audit f.on_audit u.id "report.claimed" id (object end)

    -- The target that is already hidden or gone counts as hidden.
    abbrev pub tolerate : Result ModerationError (Unit {0}) → Result ModerationError (Unit {0})
    tolerate (err invalid_state) = ok tt
    tolerate (err not_found) = ok tt
    tolerate r = r

    abbrev pub hide_target :
        World → ReportTargetType → ℕ → ℕ → World × Result ModerationError (Unit {0})
    hide_target w review id m = hide_review w id m
    hide_target w parking_photo id m = hide_parking_photo w id m
    hide_target w review_photo id m = hide_review_photo w id m
    hide_target w parking id m = invalidate_active_parking w id m

    unfoldable pub hide_resolved_target : Report → ℕ → Request (Unit {0})
    hide_resolved_target r m =
        outside (λ w.
          let (w', answer) = hide_target w r.target_type r.target_id m in (w', tolerate answer))

    abbrev pub found : Option Report → Result ModerationError Report
    found none = err not_found
    found (some r) = ok r

    abbrev pub action_of : ReportOutcome → String
    action_of outcome_resolved = "report.resolved"
    action_of outcome_dismissed = "report.dismissed"

    unfoldable pub hide_if_resolved : ReportOutcome → Report → ℕ → Request (Unit {0})
    unfolding hide_resolved_target
    hide_if_resolved outcome_resolved r m = hide_resolved_target r m
    hide_if_resolved outcome_dismissed r m = give tt

    unfoldable pub resolve_found :
        AuthenticatedUser → ℕ → ReportOutcome → String → Report → Request (Unit {0})
    unfolding hide_if_resolved audit resolve as_code
    resolve_found u id outcome note r = do
      refuse_unless (not (is_user r.reporter_id u.id)) self_resolve
      on_reports (λ t. resolve f.on_write now t id u.id note outcome)
      hide_if_resolved outcome r u.id
      audit f.on_audit u.id (action_of outcome) id (
          object (
            field "target_type" (string (as_code r.target_type))
              (field "target_id" (int (pos r.target_id)) end)))

    unfoldable pub resolve_report :
        AuthenticatedUser → ℕ → ReportOutcome → String → Request (Unit {0})
    unfolding require_moderator resolve_found get
    resolve_report u id outcome note = do
      require_moderator u
      answer ← λ d. (d, get f.on_get now d.reports id)
      r ← lift (found answer)
      resolve_found u id outcome note r
