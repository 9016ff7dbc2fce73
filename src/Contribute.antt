-- ===== src/Contribute.antt =====
-- ContributionService: proposing a change to a listing (crates/application/src/community.rs). The rate
-- limiter, the timezone of a point, chrono-tz's names and what the database's reads and writes and the
-- audit log fail with are parameters.
pub mod Proposing
mod Tests
use bikesnest.Prelude.{
  ℕ, String, ◌+++◌, Bool, true, false, ◌&&◌, Option, none, some, List, [], ◌∷◌, Result, ok, err,
  ◌==◌, show_ℕ, is_empty, trim, if◌then◌else◌,
}
use bikesnest.Prelude.Int.{ℤ}
use bikesnest.Json.{Json, object, field, end, string}
use bikesnest.Domain.Error.{invalid, domain_error_text}
use bikesnest.Domain.Codes.ProposalKind.{ProposalKind, edit_details, as_code}
use bikesnest.Domain.ParkingEdit.{TimeText, ParkingEdit, edit_to_json}
use bikesnest.Domain.ParkingEdit.Read.{edit_from_json}
use bikesnest.Domain.Proposal.{
  ProposedChange, edits, moves, existence, unknown, ProposalPayload, payload_from_json,
  payload_to_json, is_latitude, is_longitude,
}
use bikesnest.Moderation.Service.{AuditEvent}
use bikesnest.Listing.{Location, Tables, require, ensure, is_active}
use bikesnest.Listing.Rows.{find}
use bikesnest.Listing.Publish.{has_location}
use bikesnest.Listing.Contribution.{
  ContributionError, not_verified, rate_limited, version_conflict, not_found, location_not_active,
  invalid_field, timezone_error, internal, NewProposal, create_proposal,
}

-- What the service reads of the session's user.
pub record Member : Type 0 where
  pub id : ℕ
  pub is_verified : Bool

-- What the statements of one request fail with.
pub record Failures : Type 0 where
  pub on_read : Option ContributionError
  pub on_write : Option ContributionError
  pub on_audit : Bool

abbrev pub edit_user_limit : ℕ
edit_user_limit = 15

abbrev pub proposal_user_limit : ℕ
proposal_user_limit = 5

-- `HOUR`, in seconds
abbrev pub hour : ℕ
hour = 3_600

abbrev pub allowance : Option Bool → Result ContributionError (Unit {0})
allowance (some true) = ok tt
allowance (some false) = err rate_limited
allowance none = err rate_limited

unfoldable pub validate_name_address : String → String → Result ContributionError (Unit {0})
validate_name_address name address =
    if is_empty (trim name)
    then err (invalid_field "name is required")
    else if is_empty (trim address)
    then err (invalid_field "address is required")
    else ok tt

module _ (Limiter : Type 0) (check : Limiter → String → ℕ → ℕ → Limiter × Option Bool)
    (times : TimeText) (f64_of : ℤ → ℕ) (parse_timezone : String → Option String)
    (resolve : ℕ → ℕ → Option String) where
  pub record Community : Type 0 where
    pub limiter : Limiter
    pub listing : Tables
    pub audit_log : List AuditEvent

  -- A request: an error ends it, and what was written stays.
  abbrev pub Request : Type 0 → Type 0
  Request A = Community → Community × Result ContributionError A

  infixl 5 ◌>>=◌ ◌>>◌
  unfoldable pub continue :
      {A B : Type 0}
      → (A → Request B)
      → Community × Result ContributionError A
      → Community × Result ContributionError B
  continue k (c, ok a) = k a c
  continue k (c, err e) = (c, err e)

  unfoldable pub ◌>>=◌ : {A B : Type 0} → Request A → (A → Request B) → Request B
  unfolding continue
  (m >>= k) c = continue k (m c)

  abbrev pub ◌>>◌ : {B : Type 0} → Request (Unit {0}) → Request B → Request B
  m >> k = m >>= λ _. k

  abbrev pub lift : {A : Type 0} → Result ContributionError A → Request A
  lift r c = (c, r)

  unfoldable pub allowed : String → ℕ → ℕ → Request (Unit {0})
  allowed key limit window c =
      let (l, r) = check c.limiter key limit window in (record c { limiter = l }, allowance r)

  module _ (failures : Failures) where
    -- `get_for_edit`
    abbrev pub read_location :
        Option ContributionError → ℕ → Tables → Result ContributionError Location
    read_location (some e) id t = err e
    read_location none id t = require not_found (find (has_location id) t.locations)

    unfoldable pub require_active : ℕ → Request Location
    unfolding find
    require_active id = do
      l ← λ c. (c, read_location failures.on_read id c.listing)
      lift (ensure (is_active l.moderation_state) location_not_active)
      lift (ok l)

    -- The repository's transaction, committed or not.
    abbrev pub commit :
        Community → Result ContributionError (Tables × ℕ) → Community × Result ContributionError ℕ
    commit c (ok (t, id)) = (record c { listing = t }, ok id)
    commit c (err e) = (c, err e)

    abbrev pub store : Option ContributionError → ℕ → NewProposal → Request ℕ
    store (some e) new_id p c = (c, err e)
    store none new_id p c = commit c (create_proposal times f64_of new_id p c.listing)

    abbrev pub logged : Bool → AuditEvent → Request (Unit {0})
    logged true event c = (c, err internal)
    logged false event c = (record c { audit_log = event ∷ c.audit_log }, ok tt)

    unfoldable pub propose : Member → ProposalKind → NewProposal → ℕ → Request ℕ
    unfolding as_code
    propose u kind p new_id = do
      id ← store failures.on_write new_id p
      logged failures.on_audit record {
        actor_user_id = some u.id;
        action = "parking.proposal_created";
        target_type = "parking_proposal";
        target_id = show_ℕ id;
        result = "success";
        metadata = object (field "kind" (string (as_code kind)) end);
      }
      lift (ok id)

    unfoldable pub apply_parking_edit : Member → ℕ → ℕ → ParkingEdit → ℕ → Request ℕ
    unfolding validate_name_address edit_to_json edit_from_json
    apply_parking_edit u id expected e new_id = do
      lift (ensure u.is_verified not_verified)
      allowed ("contribution:edit:user:" +++ show_ℕ u.id) edit_user_limit hour
      lift (validate_name_address e.name e.address)
      current ← require_active id
      lift (ensure (current.version == expected) version_conflict)
      readable ←
          lift
            (require (invalid_field "invalid edit") (edit_from_json times (edit_to_json times e)))
      propose u edit_details
          record {
            location_id = id;
            proposer_id = u.id;
            base_version = expected;
            kind = edit_details;
            proposed = edit_to_json times e;
          }
          new_id

    -- The timezone that a move is stored with.
    abbrev pub zone_at : ℕ → ℕ → Option String → Result ContributionError String
    zone_at lat lon (some tz) = require timezone_error (parse_timezone tz)
    zone_at lat lon none =
        if is_latitude lat && is_longitude lon
        then require timezone_error (resolve lat lon)
        else err (invalid_field (domain_error_text (invalid "coordinates out of range")))

    abbrev pub with_zone :
        ℕ → ℕ → Result ContributionError String → Result ContributionError ProposedChange
    with_zone lat lon (ok zone) = ok (moves lat lon (some zone))
    with_zone lat lon (err e) = err e

    -- What may be proposed of an active listing, with its timezone filled in.
    unfoldable pub settled : ProposedChange → Result ContributionError ProposedChange
    settled unknown = err (invalid_field "invalid proposal")
    settled (existence true) = err (invalid_field "an active spot already exists")
    settled (existence false) = ok (existence false)
    settled (moves lat lon timezone) = with_zone lat lon (zone_at lat lon timezone)
    settled (edits e) = ok (edits e)

    unfoldable pub propose_location_change : Member → ℕ → ProposalKind → Json → ℕ → Request ℕ
    unfolding payload_from_json payload_to_json settled
    propose_location_change u id kind proposed new_id = do
      lift (ensure u.is_verified not_verified)
      allowed ("contribution:proposal:user:" +++ show_ℕ u.id) proposal_user_limit hour
      current ← require_active id
      let payload = payload_from_json times f64_of kind proposed
      change ← lift (settled payload.change)
      propose u kind
          record {
            location_id = id;
            proposer_id = u.id;
            base_version = current.version;
            kind = kind;
            proposed = payload_to_json times (record payload { change = change });
          }
          new_id
