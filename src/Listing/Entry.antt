-- ===== src/Listing/Entry.antt =====
-- A new listing, and the direct edit of one: `create` and `apply_edit`
-- (crates/infrastructure/src/community/contribution.rs).
pub mod Sound
use bikesnest.Prelude.{
  ℕ, suc, String, ◌+++◌, Bool, true, false, ◌&&◌, Option, none, some, List, [], ◌∷◌, ◌++◌, Result,
  ok, err, ◌==◌, trim, any, if◌then◌else◌, ◌>>=◌, ◌>>◌, map,
}
use bikesnest.Json.{
  Json, Items, null, boolean, float, int, string, array, object, nil, cons, field, end,
}
use bikesnest.Prelude.Int.{pos}
use bikesnest.Domain.Error.{invalid, domain_error_text}
use bikesnest.Domain.Codes.ModerationState.{ModerationState, as_code as state_code}
use bikesnest.Domain.Codes.ParkingType.{ParkingType, as_code}
use bikesnest.Domain.Codes.ChangeKind.{ChangeKind}
use bikesnest.Domain.Hours.{OpeningHours, is_unknown}
use bikesnest.Domain.Parking.{Cost, SecurityFeature, state_smallint}
use bikesnest.Domain.ParkingEdit.{TimeText, ParkingEdit, cost_json, rows_json, hours_rows}
use bikesnest.Domain.Proposal.{number_json, is_latitude, is_longitude}
use bikesnest.Moderation.Error.{
  DbFailure, db_conflict, db_invalid, db_retryable, db_unavailable, db_other, invalid_hint,
}
use bikesnest.Listing.{HourRow, Location, Revision, Tables, require, ensure, is_active}
use bikesnest.Listing.Rows.{find, update_where, updated}
use bikesnest.Listing.Snapshot.{CostParts, cost_parts, write_hours, write_security, text_or_null}
use bikesnest.Listing.Publish.{has_location, is_revision, edited}
use bikesnest.Listing.Contribution.{
  ContributionError, invalid_field, not_found, location_not_active, version_conflict, conflict,
  unavailable, internal,
}

pub record NewParkingLocation : Type 0 where
  pub name : String
  pub address : String
  pub description : Option String
  pub parking_type : ParkingType
  pub cost : Cost
  pub lat : ℕ
  pub lon : ℕ
  pub timezone : Option String
  pub hours : OpeningHours
  pub security : List SecurityFeature

-- `insert_revision` of this file, with its kinds of change
unfoldable pub insert_change : Revision → Tables → Result ContributionError Tables
insert_change r t =
    if any (is_revision r.location_id r.version) t.revisions
    then err conflict
    else ok (record t { revisions = r ∷ t.revisions })

-- `DbFailure` as this repository's error
unfoldable pub of_db : DbFailure → ContributionError
unfolding invalid_hint
of_db (db_conflict c) = conflict
of_db db_retryable = conflict
of_db (db_invalid c) = invalid_field (invalid_hint c)
of_db db_unavailable = unavailable
of_db db_other = internal

abbrev pub stored_hours : Result DbFailure (List HourRow) → Result ContributionError (List HourRow)
stored_hours (ok rows) = ok rows
stored_hours (err e) = err (of_db e)

unfoldable pub features_json : List SecurityFeature → Items
unfolding state_smallint
features_json [] = nil
features_json (f ∷ rest) =
    cons
      (array
        (cons (string (SecurityFeature.code f)) (cons (int (pos (state_smallint f.state))) nil)))
      (features_json rest)

-- The inserted row.
unfoldable pub new_location : ℕ → ℕ → NewParkingLocation → String → Location
unfolding cost_parts as_code is_unknown
new_location now id n timezone = record {
  id = id;
  name = trim n.name;
  address = trim n.address;
  description = n.description;
  parking_type = as_code n.parking_type;
  cost_kind = CostParts.kind (cost_parts n.cost);
  price_cents = CostParts.cents (cost_parts n.cost);
  price_currency = CostParts.currency (cost_parts n.cost);
  price_unit = CostParts.unit (cost_parts n.cost);
  lat = n.lat;
  lon = n.lon;
  timezone = timezone;
  hours_unknown = is_unknown n.hours;
  moderation_state = ModerationState.active;
  version = 1;
  rating_avg = none;
  rating_count = 0;
  updated_at = now;
  last_meaningful_update_at = now;
}

module _ (times : TimeText) where
  -- `snapshot_of`, from what is written
  unfoldable pub snapshot_of : Location → Cost → OpeningHours → List SecurityFeature → Json
  unfolding cost_json rows_json features_json is_unknown state_code
  snapshot_of l cost hours security = object (
      field "name" (string l.name) (
        field "address" (string l.address) (
          field "description" (text_or_null l.description) (
            field "type" (string l.parking_type) (
              field "cost" (cost_json cost) (
                field "point"
                  (object (field "lat" (number_json l.lat) (field "lon" (number_json l.lon) end)))
                  (field "timezone" (string l.timezone) (
                    field "hours"
                      (object (
                        field "unknown" (boolean (is_unknown hours))
                          (field "rows" (array (rows_json times (hours_rows hours))) end)))
                      (field "security" (array (features_json security)) (
                        field "moderation_state" (string (state_code l.moderation_state))
                          end))))))))))

  -- The first revision keeps the texts as they were typed.
  abbrev pub first_revision : Location → NewParkingLocation → ℕ → Revision
  first_revision l n creator = record {
    location_id = l.id;
    version = 1;
    editor_id = some creator;
    change_kind = ChangeKind.create;
    summary = "added";
    snapshot =
        snapshot_of (record l { name = n.name; address = n.address }) n.cost n.hours n.security;
  }

  unfoldable pub create : ℕ → ℕ → NewParkingLocation → ℕ → Tables → Result ContributionError Tables
  unfolding new_location snapshot_of write_hours write_security insert_change
  create now new_id n creator t = do
    timezone ← require (invalid_field "timezone is required") n.timezone
    let l = new_location now new_id n timezone
    hours ← stored_hours (write_hours new_id n.hours t.opening_hours)
    insert_change (first_revision l n creator) (record t {
      locations = l ∷ t.locations;
      opening_hours = hours;
      security = write_security new_id n.security t.security;
    })

  module _ (parse_timezone : String → Option String) where
    abbrev pub edit_revision : Location → ParkingEdit → ℕ → Revision
    edit_revision row e editor = record {
      location_id = row.id;
      version = row.version;
      editor_id = some editor;
      change_kind = ChangeKind.edit;
      summary = "edited";
      snapshot = snapshot_of row e.cost e.hours e.security;
    }

    abbrev pub is_edited : ℕ → ℕ → Location → Bool
    is_edited id version l =
        (Location.id l == id) && (l.version == version) && is_active l.moderation_state

    -- The point and the timezone that the UPDATE gives back, and the revision.
    unfoldable pub land_edit :
        ℕ → ℕ → ℕ → ParkingEdit → ℕ → Tables → Location → Result ContributionError (Tables × ℕ)
    unfolding update_where edited write_hours write_security snapshot_of insert_change
        domain_error_text
    land_edit now id expected e editor t row = do
      ensure (is_latitude row.lat && is_longitude row.lon)
          (invalid_field (domain_error_text (invalid "coordinates out of range")))
      zone ←
          require (invalid_field ("unknown timezone: " +++ row.timezone))
            (parse_timezone row.timezone)
      hours ← stored_hours (write_hours id e.hours t.opening_hours)
      after ← insert_change (edit_revision (record row { timezone = zone }) e editor) (record t {
        locations = update_where (is_edited id expected) (edited now e) t.locations;
        opening_hours = hours;
        security = write_security id e.security t.security;
      })
      ok (after, row.version)

    unfoldable pub write_edit :
        ℕ → ℕ → ℕ → ParkingEdit → ℕ → Tables → Result ContributionError (Tables × ℕ)
    unfolding updated edited land_edit
    write_edit now id expected e editor t = do
      row ← require version_conflict (updated (is_edited id expected) (edited now e) t.locations)
      land_edit now id expected e editor t row

    unfoldable pub apply_edit :
        ℕ → ℕ → ℕ → ParkingEdit → ℕ → Tables → Result ContributionError (Tables × ℕ)
    unfolding find write_edit
    apply_edit now id expected e editor t = do
      guard ← require not_found (find (has_location id) t.locations)
      ensure (is_active guard.moderation_state) location_not_active
      ensure (guard.version == expected) version_conflict
      write_edit now id expected e editor t
