-- ===== src/Contribute/Tests.antt =====
-- A proposal of a verified member.
use bikesnest.Prelude.{ℕ, ◌≡◌, refl, String, Bool, true, false, Option, none, some, [], ok}
use bikesnest.Json.{object, field, end, string}
use bikesnest.Domain.Codes.ProposalKind.{change_existence}
use bikesnest.Domain.ParkingEdit.Tests.{tallies, edit}
use bikesnest.Listing.Tests.{board}
use bikesnest.Listing.Contribution.{create_proposal}
use bikesnest.Contribute.{
  Member, Failures, Community, apply_parking_edit, propose_location_change, ◌>>=◌, allowed,
  require_active, propose,
}
use bikesnest.Contribute.Proposing.{Filed, proposing-Filed}

abbrev open_check : Unit {0} → String → ℕ → ℕ → Unit {0} × Option Bool
open_check w key limit window = (w, some true)

abbrev no_failures : Failures
no_failures = record { on_read = none; on_write = none; on_audit = false }

abbrev cyclist : Member
cyclist = record { id = 3; is_verified = true }

abbrev town : Community (Unit {0}) open_check tallies (λ z. 0) some (λ lat lon. some "UTC")
town = record { limiter = tt; listing = board; audit_log = [] }

accepted :
    (propose_location_change
      (Unit {0})
      open_check
      tallies
      (λ z. 0)
      some
      (λ lat lon. some "UTC")
      no_failures
      cyclist
      1
      change_existence
      (object (field "existence" (string "removed") end))
      12
      town).1
    ≡ ok 12
unfolding propose_location_change ◌>>=◌ allowed require_active propose create_proposal
accepted = refl

proposing-Filed_example :
    Filed board (
      Community.listing
        (apply_parking_edit
          (Unit {0})
          open_check
          tallies
          (λ z. 0)
          some
          (λ lat lon. some "UTC")
          no_failures
          cyclist
          1
          3
          edit
          12
          town).0)
    × Filed board (
        Community.listing
          (propose_location_change
            (Unit {0})
            open_check
            tallies
            (λ z. 0)
            some
            (λ lat lon. some "UTC")
            no_failures
            cyclist
            1
            change_existence
            (object (field "existence" (string "removed") end))
            12
            town).0)
proposing-Filed_example =
    proposing-Filed (Unit {0}) open_check tallies (λ z. 0) some (λ lat lon. some "UTC") no_failures
      cyclist 1 3 12 edit change_existence (object (field "existence" (string "removed") end)) town
