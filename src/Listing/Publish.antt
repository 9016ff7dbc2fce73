-- ===== src/Listing/Publish.antt =====
-- What a moderator does to a listing and its proposals: `approve_in_transaction`,
-- `set_parking_state`, `reject_proposal` (crates/infrastructure/src/moderation/actions.rs).
pub mod Sound
pub mod Details
pub mod Asked
pub mod Decides
pub mod Effect
pub mod State
use bikesnest.Prelude.{
  ℕ, suc, ◌+◌, String, Bool, true, false, ◌&&◌, not, Option, none, some, List, [], ◌∷◌, Result, ok,
  err, any, ◌==◌, is_empty, trim, if◌then◌else◌, ◌>>=◌, ◌>>◌,
}
use bikesnest.Domain.Codes.ModerationState.{ModerationState}
use bikesnest.Domain.Codes.ParkingType.{as_code}
use bikesnest.Domain.Codes.ProposalKind.{
  ProposalKind, edit_details, move_location, change_existence,
}
use bikesnest.Domain.Codes.ProposalStatus.{approved, rejected, superseded}
use bikesnest.Domain.Codes.ChangeKind.{ChangeKind}
use bikesnest.Domain.Hours.{is_unknown}
use bikesnest.Domain.ParkingEdit.{TimeText, ParkingEdit}
use bikesnest.Domain.Proposal.{filled}
use bikesnest.Moderation.Error.{
  DbFailure, internal, ModerationError, not_found, invalid_state, stale_proposal, conflict,
}
use bikesnest.Listing.{
  HourRow, Location, Revision, Proposal, Tables, require, ensure, is_active, is_pending, is_user,
  tally, approve, reject,
}
use bikesnest.Listing.Rows.{find, update_where, updated, count}
use bikesnest.Listing.Application.{
  ProposalApplication, apply_edit, apply_move, apply_existence, application_kind,
}
use bikesnest.Listing.Snapshot.{CostParts, cost_parts, write_hours, write_security, snapshot_with}

abbrev pub same_kind : ProposalKind → ProposalKind → Bool
same_kind edit_details edit_details = true
same_kind move_location move_location = true
same_kind change_existence change_existence = true
same_kind _ _ = false

abbrev pub has_location : ℕ → Location → Bool
has_location id l = Location.id l == id

abbrev pub has_proposal : ℕ → Proposal → Bool
has_proposal id p = Proposal.id p == id

-- `insert_revision`: the pair of the location and the version is unique.
abbrev pub is_revision : ℕ → ℕ → Revision → Bool
is_revision id version r = (Revision.location_id r == id) && (r.version == version)

unfoldable pub insert_revision : Revision → Tables → Result ModerationError Tables
insert_revision r t =
    if any (is_revision r.location_id r.version) t.revisions
    then err conflict
    else ok (record t { revisions = r ∷ t.revisions })

-- `supersede_pending_proposals`
abbrev pub is_other : Option ℕ → ℕ → Bool
is_other none id = true
is_other (some except) id = not (id == except)

abbrev pub is_superseded : ℕ → Option ℕ → Proposal → Bool
is_superseded location except p =
    (Proposal.location_id p == location) && is_pending p.status && is_other except p.id

unfoldable pub supersede : ℕ → Option ℕ → List Proposal → List Proposal
unfolding update_where
supersede location except =
    update_where (is_superseded location except) (λ p. record p { status = superseded })

-- What the UPDATE of each change sets on the listing.
unfoldable pub edited : ℕ → ParkingEdit → Location → Location
unfolding cost_parts as_code is_unknown
edited now e l = record l {
  name = trim e.name;
  address = trim e.address;
  description = e.description;
  parking_type = as_code e.parking_type;
  cost_kind = CostParts.kind (cost_parts e.cost);
  price_cents = CostParts.cents (cost_parts e.cost);
  price_currency = CostParts.currency (cost_parts e.cost);
  price_unit = CostParts.unit (cost_parts e.cost);
  hours_unknown = is_unknown e.hours;
  version = suc l.version;
  updated_at = now;
  last_meaningful_update_at = now;
}

unfoldable pub changed : ℕ → ProposalApplication → Location → Location
unfolding edited
changed now (apply_edit e) l = edited now e l
changed now (apply_move lat lon zone) l = record l {
  lat = lat;
  lon = lon;
  timezone = zone;
  version = suc l.version;
  updated_at = now;
  last_meaningful_update_at = now;
}
changed now (apply_existence exists) l = record l {
  moderation_state = if exists then ModerationState.active else ModerationState.removed;
  version = suc l.version;
  updated_at = now;
}

-- The rows that the UPDATE selects: an edit wants an active listing too.
abbrev pub wants_active : ProposalApplication → Location → Bool
wants_active (apply_edit e) l = is_active l.moderation_state
wants_active _ l = true

abbrev pub is_target : ProposalApplication → ℕ → ℕ → Location → Bool
is_target a id version l = (Location.id l == id) && (l.version == version) && wants_active a l

-- The statements beside the UPDATE: the hours and security rows of an edit. A failure of theirs is
-- internal.
abbrev pub stored_details :
    ℕ → ParkingEdit → Tables → Result DbFailure (List HourRow) → Result ModerationError Tables
stored_details id e t (ok rows) =
    ok (record t { opening_hours = rows; security = write_security id e.security t.security })
stored_details id e t (err x) = err internal

unfoldable pub with_details : ℕ → ProposalApplication → Tables → Result ModerationError Tables
unfolding write_hours write_security
with_details id (apply_edit e) t = stored_details id e t (write_hours id e.hours t.opening_hours)
with_details id (apply_move lat lon zone) t = ok t
with_details id (apply_existence exists) t = ok t

abbrev pub summary_of : ProposalApplication → String
summary_of (apply_edit e) = "proposal applied (details)"
summary_of (apply_move lat lon zone) = "proposal applied (move)"
summary_of (apply_existence exists) = "proposal applied (existence)"

abbrev pub revision_of : TimeText → Tables → Location → ℕ → String → Revision
revision_of times t row moderator summary = record {
  location_id = row.id;
  version = row.version;
  editor_id = some moderator;
  change_kind = ChangeKind.moderation;
  summary = summary;
  snapshot = snapshot_with times t row;
}

-- The decision on a proposal, with the tally at that moment.
unfoldable pub approved_by : ℕ → ℕ → Tables → Proposal → Proposal
unfolding tally
approved_by now moderator t p = record p {
  status = approved;
  resolved_by = some moderator;
  resolved_at = some now;
  decision_approvals = some (tally t p.id approve);
  decision_rejections = some (tally t p.id reject);
}

module _ (times : TimeText) (now : ℕ) where
  -- The listing's new row is written, its revision, and the decisions on its proposals.
  unfoldable pub publish :
      ℕ → ℕ → ℕ → Location → ProposalApplication → Tables → Result ModerationError Tables
  unfolding changed with_details updated insert_revision approved_by supersede update_where
  publish id moderator base loc applied t =
      let target = is_target applied loc.id base in
      do
        t1 ←
            with_details loc.id applied
              (record t { locations = update_where target (changed now applied) t.locations })
        row ← require stale_proposal (updated target (changed now applied) t.locations)
        t2 ← insert_revision (revision_of times t1 row moderator (summary_of applied)) t1
        ok (record t2 {
          proposals =
              supersede loc.id (some id)
                (update_where (has_proposal id) (approved_by now moderator t2) t2.proposals);
        })

  unfoldable pub approve_in_transaction :
      ℕ → ℕ → ProposalApplication → Tables → Result ModerationError Tables
  unfolding find publish application_kind
  approve_in_transaction id moderator applied t = do
    named ← require not_found (find (has_proposal id) t.proposals)
    loc ← require not_found (find (has_location named.location_id) t.locations)
    prop ← require not_found (find (has_proposal id) t.proposals)
    ensure (is_pending prop.status) invalid_state
    ensure (prop.base_version == loc.version) stale_proposal
    ensure
        (same_kind prop.kind (application_kind applied) && not (is_user prop.proposer_id moderator))
        invalid_state
    publish id moderator prop.base_version loc applied t

  -- `set_parking_state`, from one of the states that `from` selects.
  abbrev pub with_state : ModerationState → Location → Location
  with_state to l = record l { moderation_state = to; version = suc l.version; updated_at = now }

  abbrev pub is_from : ℕ → (ModerationState → Bool) → Location → Bool
  is_from id from l = (Location.id l == id) && from l.moderation_state

  unfoldable pub set_parking_state :
      ℕ → (ModerationState → Bool) → ModerationState → ℕ → Tables → Result ModerationError Tables
  unfolding updated update_where insert_revision supersede
  set_parking_state id from to moderator t =
      let t1 = record t {
        locations = update_where (is_from id from) (with_state to) t.locations;
      } in
      do
        row ← require invalid_state (updated (is_from id from) (with_state to) t.locations)
        t2 ← insert_revision (revision_of times t1 row moderator "moderated") t1
        ok (record t2 { proposals = supersede row.id none t2.proposals })

  -- `reject_proposal`, with `NULLIF(trim(reason), '')`
  unfoldable pub rejected_by : ℕ → String → Tables → Proposal → Proposal
  unfolding tally filled
  rejected_by moderator reason t p = record p {
    status = rejected;
    resolved_by = some moderator;
    resolved_at = some now;
    decision_reason = filled (some reason);
    decision_approvals = some (tally t p.id approve);
    decision_rejections = some (tally t p.id reject);
  }

  abbrev pub is_open_proposal : ℕ → Proposal → Bool
  is_open_proposal id p = (Proposal.id p == id) && is_pending p.status

  unfoldable pub reject_proposal :
      ℕ → ℕ → String → Tables → Tables × Result ModerationError (Unit {0})
  unfolding update_where rejected_by count
  reject_proposal id moderator reason t = (
    record t {
      proposals = update_where (is_open_proposal id) (rejected_by moderator reason t) t.proposals;
    },
    ensure (count (is_open_proposal id) t.proposals == 1) invalid_state,
  )
