-- ===== src/Moderation/Tests.antt =====
-- The life of a report at concrete requests.
use bikesnest.Prelude.{
  ℕ, String, Bool, Option, ◌≡◌, refl, true, false, none, some, [], ◌∷◌, ok, err, All,
}
use bikesnest.Domain.Codes.ReportState.{under_review}
use bikesnest.Domain.Codes.Role.{user, moderator}
use bikesnest.Domain.Codes.ReportTargetType.{review}
use bikesnest.Moderation.Error.{self_resolve, conflict}
use bikesnest.Moderation.Report.{NewReport, outcome_resolved, create, claim, resolve}
use bikesnest.Moderation.Report.Dedupe.{HasNoDuplicates, statements-HasNoDuplicates}
use bikesnest.Moderation.Report.Consistent.{IsConsistent}
use bikesnest.Moderation.Service.{
  AuthenticatedUser, Ports, ModerationLimits, Faults, Desk, submit_report, claim_report,
  resolve_report, ◌>>=◌, refuse_unless, has_role,
}
use bikesnest.Moderation.Service.Reach.{
  submits, claims, resolves, start, next, Reachable-IsConsistent,
}
use bikesnest.Domain.ParkingEdit.Tests.{tallies}
use bikesnest.Listing.Application.{no_override, merge}
use bikesnest.Listing.Rows.{find}
use bikesnest.Domain.Proposal.{ProposalPayload, payload_from_json}
use bikesnest.Listing.Tests.{board, board-IsSound, rack, gone}
use bikesnest.Listing.Content.Tests.{contents}
use bikesnest.Moderation.Actions.{approve_action}
use bikesnest.Moderation.Actions.Allowed.{Office, IsAnswered, approve_action-decides}

-- Contents that are all there, and a limiter that lets everything pass.
abbrev open_ports : Ports
open_ports = record {
  World = Unit {0};
  check = λ w key limit window. (w, some true);
  target_exists = λ w target id. ok true;
  hide_review = λ w id m. (w, ok tt);
  hide_parking_photo = λ w id m. (w, ok tt);
  hide_review_photo = λ w id m. (w, ok tt);
  invalidate_active_parking = λ w id m. (w, ok tt);
}

abbrev default_limits : ModerationLimits
default_limits = record {
  report_description_max_len = 1000;
  report_create_user_limit = 10;
  report_create_ip_limit = 20;
}

abbrev no_faults : Faults
no_faults = record { on_get = none; on_write = none; on_audit = false }

abbrev reporter : AuthenticatedUser
reporter = record { id = 1; roles = user ∷ moderator ∷ [] }

abbrev judge : AuthenticatedUser
judge = record { id = 2; roles = moderator ∷ [] }

abbrev empty_desk : Desk open_ports
empty_desk = record { reports = []; audit_log = []; world = tt }

abbrev submitted_desk : Desk open_ports
submitted_desk =
    (submit_report open_ports default_limits no_faults 0 reporter "::1" 7 review 3 "spam" none
      empty_desk).0

abbrev claimed_desk : Desk open_ports
claimed_desk = (claim_report open_ports default_limits no_faults 1 judge 7 submitted_desk).0

abbrev decided_desk : Desk open_ports
decided_desk =
    (resolve_report open_ports default_limits no_faults 2 judge 7 outcome_resolved "spam"
      claimed_desk).0

-- A report of the reporter's own, under review.
abbrev under_review_desk : Desk open_ports
under_review_desk = record empty_desk {
  reports =
      record {
        id = 7;
        reporter_id = some 1;
        target_type = review;
        target_id = 3;
        reason = "spam";
        description = "";
        state = under_review;
        claimed_by = some 1;
        resolved_by = none;
        resolution_note = none;
        created_at = 0;
        updated_at = 1;
      }
      ∷ [];
}

own_report :
    (resolve_report open_ports default_limits no_faults 2 reporter 7 outcome_resolved "no"
      under_review_desk).1
    ≡ err self_resolve
unfolding resolve_report ◌>>=◌ refuse_unless
own_report = refl

Reachable-IsConsistent_example : All IsConsistent decided_desk.reports
Reachable-IsConsistent_example = Reachable-IsConsistent open_ports default_limits decided_desk (
    next claimed_desk decided_desk
      (next submitted_desk claimed_desk
        (next empty_desk submitted_desk (start [] tt)
          (submits empty_desk no_faults 0 reporter "::1" 7 review 3 "spam" none))
        (claims submitted_desk no_faults 1 judge 7))
      (resolves claimed_desk no_faults 2 judge 7 outcome_resolved "spam"))

abbrev second_report : NewReport
second_report = record {
  reporter_id = 1;
  target_type = review;
  target_id = 3;
  reason = "abuse";
  description = "";
}

refused_again : (create none 5 under_review_desk.reports second_report 8).1 ≡ err conflict
unfolding create
refused_again = refl

statements-HasNoDuplicates_example :
    HasNoDuplicates (create none 5 under_review_desk.reports second_report 7).0
    × HasNoDuplicates (claim none 5 under_review_desk.reports 7 2).0
    × HasNoDuplicates (resolve none 5 under_review_desk.reports 7 2 "spam" outcome_resolved).0
statements-HasNoDuplicates_example =
    statements-HasNoDuplicates none 5 under_review_desk.reports second_report 7 2 "spam"
      outcome_resolved (refl, tt)

abbrev open_check : Unit {0} → String → ℕ → ℕ → Unit {0} × Option Bool
open_check w key limit window = (w, some true)

abbrev office : Office (Unit {0}) open_check tallies 100
office = record {
  reports = [];
  audit_log = [];
  world = record { limiter = tt; contents = record contents { listing = board } };
}

approve_action-decides_example :
    IsAnswered
      (Unit {0})
      open_check
      tallies
      100
      judge
      (λ z. 0)
      some
      10
      no_override
      gone
      rack
      office
      (merge some gone.kind
        (ProposalPayload.change (payload_from_json tallies (λ z. 0) gone.kind gone.proposed))
        no_override)
      (approve_action
        (Unit {0})
        open_check
        tallies
        100
        false
        judge
        (λ z. 0)
        some
        10
        no_override
        office)
unfolding find has_role
approve_action-decides_example =
    approve_action-decides (Unit {0}) open_check tallies 100 judge (λ z. 0) some 10 no_override gone
      rack office board-IsSound refl refl refl
