-- ===== src/Listing/Application.antt =====
-- What an approval writes: the moderator's values over the proposer's
-- (`ProposalApplication::merge`, crates/application/src/moderation.rs). A timezone is its name; the
-- timezones that exist are chrono-tz's: `parse_timezone`.
pub mod Merge
use bikesnest.Prelude.{
  ℕ, String, Bool, true, false, ◌&&◌, ◌||◌, not, Option, none, some, Result, ok, err, ◌>>=◌, ◌>>◌,
}
use bikesnest.Domain.Codes.ProposalKind.{
  ProposalKind, edit_details, move_location, change_existence,
}
use bikesnest.Domain.ParkingEdit.{ParkingEdit}
use bikesnest.Domain.Proposal.{
  ProposedChange, edits, moves, existence, unknown, is_finite, is_latitude, is_longitude, filled,
}
use bikesnest.Moderation.Error.{
  ModerationError, ProposalField, invalid_state, invalid_proposal_field,
}
use bikesnest.Listing.{require, ensure}

-- The values that a moderator has typed; nothing is typed by default.
pub record ProposalOverride : Type 0 where
  pub lat : Option ℕ
  pub lon : Option ℕ
  pub timezone : Option String
  pub exists : Option Bool

abbrev pub no_override : ProposalOverride
no_override = record { lat = none; lon = none; timezone = none; exists = none }

pub data ProposalApplication : Type 0 where
  apply_edit : ParkingEdit → ProposalApplication
  apply_move : (lat lon : ℕ) → String → ProposalApplication
  apply_existence : Bool → ProposalApplication

unfoldable pub application_kind : ProposalApplication → ProposalKind
application_kind (apply_edit e) = edit_details
application_kind (apply_move lat lon timezone) = move_location
application_kind (apply_existence exists) = change_existence

-- `a.or(b)`
abbrev pub or : {A : Type 0} → Option A → Option A → Option A
or none b = b
or (some a) b = some a

module _ (parse_timezone : String → Option String) where
  abbrev pub zone_of : Option String → Option String
  zone_of none = none
  zone_of (some s) = parse_timezone s

  unfoldable pub merge_move :
      Option ℕ → Option ℕ → Option String → Result ModerationError ProposalApplication
  unfolding filled
  merge_move lat lon timezone = do
    y ← require (invalid_proposal_field ProposalField.lat) lat
    x ← require (invalid_proposal_field ProposalField.lon) lon
    ensure (is_finite y && is_latitude y) (invalid_proposal_field ProposalField.lat)
    ensure (is_finite x && is_longitude x) (invalid_proposal_field ProposalField.lon)
    zone ← require (invalid_proposal_field ProposalField.timezone) (zone_of (filled timezone))
    ok (apply_move y x zone)

  abbrev pub merge_existence : Option Bool → Result ModerationError ProposalApplication
  merge_existence none = err (invalid_proposal_field ProposalField.existence)
  merge_existence (some exists) = ok (apply_existence exists)

  unfoldable pub merge :
      ProposalKind → ProposedChange → ProposalOverride → Result ModerationError ProposalApplication
  unfolding merge_move
  merge edit_details (edits e) over = ok (apply_edit e)
  merge edit_details _ over = err invalid_state
  merge move_location (moves lat lon timezone) over =
      merge_move (or over.lat (some lat)) (or over.lon (some lon)) (or over.timezone timezone)
  merge change_existence (existence exists) over = merge_existence (or over.exists (some exists))
  merge move_location _ over = merge_move over.lat over.lon over.timezone
  merge change_existence _ over = merge_existence over.exists
