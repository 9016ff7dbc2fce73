-- ===== src/Listing/Publish/Details.antt =====
-- What an approval writes beside the listing, and when the tables take it
-- (`approve_in_transaction`, crates/infrastructure/src/moderation/actions.rs).
use bikesnest.Prelude.{
  ℕ, ◌≡◌, refl, ap, Bool, true, false, none, some, List, Result, ok, err, ◌++◌, if◌then◌else◌,
}
use bikesnest.Domain.ParkingEdit.{ParkingEdit}
use bikesnest.Domain.ParkingEdit.Read.{to_option}
use bikesnest.Moderation.Error.{internal, DbFailure}
use bikesnest.Listing.{HourRow, Tables}
use bikesnest.Listing.Application.{ProposalApplication, apply_edit, apply_move, apply_existence}
use bikesnest.Listing.Rows.{some_inj}
use bikesnest.Listing.Snapshot.{hour_rows, write_security}
use bikesnest.Listing.Snapshot.Hours.{is_storable, others, write_hours-decides}
use bikesnest.Listing.Publish.{stored_details, with_details}

-- Whether the hours of what is applied can be stored.
abbrev pub is_writable : ProposalApplication → Bool
is_writable (apply_edit e) = is_storable e.hours
is_writable (apply_move lat lon zone) = true
is_writable (apply_existence exists) = true

-- The tables with the hours and security rows of an edit.
unfoldable pub detailed : ℕ → ProposalApplication → Tables → Tables
detailed id (apply_edit e) t = record t {
  opening_hours = others id t.opening_hours ++ hour_rows id e.hours;
  security = write_security id e.security t.security;
}
detailed id (apply_move lat lon zone) t = t
detailed id (apply_existence exists) t = t

stored_details-decides :
    (id : ℕ) (e : ParkingEdit) (t : Tables) (b : Bool) (rows : List HourRow)
    (r : Result DbFailure (List HourRow))
    → to_option r ≡ (if b then some rows else none)
    → stored_details id e t r ≡ (
        if b
        then ok
            (record t { opening_hours = rows; security = write_security id e.security t.security })
        else err internal)
stored_details-decides id e t true rows (ok xs) h = same xs h
  where
    same :
        (xs : List HourRow)
        → some xs ≡ some rows
        → stored_details id e t (ok xs)
          ≡ ok (record t {
            opening_hours = rows;
            security = write_security id e.security t.security;
          })
    same xs h = ap (λ ys. stored_details id e t (ok ys)) (some_inj h)
stored_details-decides id e t true rows (err x) h = cc
stored_details-decides id e t false rows (ok xs) h = cc
stored_details-decides id e t false rows (err x) h = refl

pub with_details-decides :
    (id : ℕ) (a : ProposalApplication) (t : Tables)
    → with_details id a t ≡ (if is_writable a then ok (detailed id a t) else err internal)
unfolding with_details detailed
with_details-decides id (apply_edit e) t =
    stored_details-decides id e t (is_storable e.hours) _ _
      (write_hours-decides id e.hours t.opening_hours)
with_details-decides id (apply_move lat lon zone) t = refl
with_details-decides id (apply_existence exists) t = refl

-- The tables beside those of the hours and of the security attributes.
pub detailed-rest :
    (id : ℕ) (a : ProposalApplication) (t : Tables)
    → ((detailed id a t).revisions ≡ t.revisions)
      × ((detailed id a t).proposals ≡ t.proposals)
      × ((detailed id a t).locations ≡ t.locations)
unfolding detailed
detailed-rest id (apply_edit e) t = (refl, refl, refl)
detailed-rest id (apply_move lat lon zone) t = (refl, refl, refl)
detailed-rest id (apply_existence exists) t = (refl, refl, refl)

pub detailed-voters :
    (id : ℕ) (a : ProposalApplication) (t : Tables)
    → ((detailed id a t).votes ≡ t.votes) × ((detailed id a t).users ≡ t.users)
unfolding detailed
detailed-voters id (apply_edit e) t = (refl, refl)
detailed-voters id (apply_move lat lon zone) t = (refl, refl)
detailed-voters id (apply_existence exists) t = (refl, refl)
