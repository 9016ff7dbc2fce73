-- ===== src/Listing/Publish/Asked.antt =====
-- What a proposal asks of a listing, column by column, and that an approval writes it
-- (`approve_in_transaction`, crates/infrastructure/src/moderation/actions.rs).
use mathlib.Core.Option
use bikesnest.Prelude.{
  ℕ, suc, ◌≡◌, refl, String, true, false, ◌&&◌, Option, none, some, List, ◌++◌, any, ◌==◌, ◌=s=◌,
  if◌then◌else◌, trim,
}
use bikesnest.Domain.Codes.ModerationState
use bikesnest.Domain.Codes.ParkingType.{as_code as type_code}
use bikesnest.Domain.Codes.PricingUnit.{as_code as unit_code}
use bikesnest.Domain.Hours.{is_unknown}
use bikesnest.Domain.Parking.{
  Cost, free, unknown_cost, paid, Money, kind_code, state_in, state_smallint,
  security_feature_codes,
}
use bikesnest.Listing.{Location, HourRow, Tables}
use bikesnest.Listing.Application.{ProposalApplication, apply_edit, apply_move, apply_existence}
use bikesnest.Listing.Snapshot.{cost_parts, hour_rows}
use bikesnest.Listing.Snapshot.Hours.{others}
use bikesnest.Listing.Snapshot.Codes.{state_at, state_at-write_security}
use bikesnest.Listing.Publish.{edited, changed}
use bikesnest.Listing.Publish.Details.{detailed}

abbrev pub price_of : Cost → Option Money
price_of (paid price) = price
price_of _ = none

-- The row of a listing after an edit, a move, or a change of existence: its next version, with what
-- was asked for in its columns, and the other columns as they were.
abbrev pub asked : ℕ → ProposalApplication → Location → Location
asked now (apply_edit e) l = record l {
  name = trim e.name;
  address = trim e.address;
  description = e.description;
  parking_type = type_code e.parking_type;
  cost_kind = kind_code e.cost;
  price_cents = Option.map Money.cents (price_of e.cost);
  price_currency = Option.map Money.currency (price_of e.cost);
  price_unit = Option.map (λ m. unit_code (Money.unit m)) (price_of e.cost);
  hours_unknown = is_unknown e.hours;
  version = suc l.version;
  updated_at = now;
  last_meaningful_update_at = now;
}
asked now (apply_move lat lon zone) l = record l {
  lat = lat;
  lon = lon;
  timezone = zone;
  version = suc l.version;
  updated_at = now;
  last_meaningful_update_at = now;
}
asked now (apply_existence true) l = record l {
  moderation_state = ModerationState.active;
  version = suc l.version;
  updated_at = now;
}
asked now (apply_existence false) l = record l {
  moderation_state = ModerationState.removed;
  version = suc l.version;
  updated_at = now;
}

-- The hours after it: an edit replaces those of its listing.
abbrev pub asked_hours : ℕ → ProposalApplication → List HourRow → List HourRow
asked_hours id (apply_edit e) rows = others id rows ++ hour_rows id e.hours
asked_hours id _ rows = rows

-- The state of a security attribute after it: an edit sets each known one of its listing.
abbrev pub asked_state : ℕ → ProposalApplication → ℕ → String → Option ℕ → Option ℕ
asked_state id (apply_edit e) k code before =
    if (k == id) && any (λ c. code =s= c) security_feature_codes
    then some (state_smallint (state_in e.security code))
    else before
asked_state id _ k code before = before

pub changed-asked :
    (now : ℕ) (a : ProposalApplication) (l : Location) → changed now a l ≡ asked now a l
unfolding changed edited cost_parts kind_code
changed-asked now (apply_edit e) l = by_cost e.cost
  where
    by_cost :
        (c : Cost)
        → changed now (apply_edit (record e { cost = c })) l
          ≡ asked now (apply_edit (record e { cost = c })) l
    by_cost free = refl
    by_cost unknown_cost = refl
    by_cost (paid none) = refl
    by_cost (paid (some m)) = refl
changed-asked now (apply_move lat lon zone) l = refl
changed-asked now (apply_existence true) l = refl
changed-asked now (apply_existence false) l = refl

pub detailed-hours :
    (id : ℕ) (a : ProposalApplication) (t : Tables)
    → (detailed id a t).opening_hours ≡ asked_hours id a t.opening_hours
unfolding detailed
detailed-hours id (apply_edit e) t = refl
detailed-hours id (apply_move lat lon zone) t = refl
detailed-hours id (apply_existence exists) t = refl

pub detailed-state :
    (id : ℕ) (a : ProposalApplication) (t : Tables) (k : ℕ) (code : String)
    → state_at k code (detailed id a t).security
      ≡ asked_state id a k code (state_at k code t.security)
unfolding detailed
detailed-state id (apply_edit e) t k code = state_at-write_security k id code e.security t.security
detailed-state id (apply_move lat lon zone) t k code = refl
detailed-state id (apply_existence exists) t k code = refl
