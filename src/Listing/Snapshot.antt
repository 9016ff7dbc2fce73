-- ===== src/Listing/Snapshot.antt =====
-- The hours and security rows of a listing, and the JSON that a revision keeps of it
-- (crates/infrastructure/src/community/contribution.rs and moderation/actions.rs).
pub mod Hours
pub mod Codes
use bikesnest.Moderation.Error.{DbFailure, db_conflict, db_invalid}
use bikesnest.Prelude.{
  Result, ok, err, leb, ◌/◌, ◌*◌, ℕ, String, Bool, ◌&&◌, ◌||◌, not, Option, none, some, List, [],
  ◌∷◌, ◌++◌, any, keep, map, ltb, ◌==◌, ◌=s=◌, if◌then◌else◌,
}
use bikesnest.Prelude.Int.{ℤ, pos}
use bikesnest.Json.{Json, Items, null, boolean, int, string, array, object, nil, cons, field, end}
use bikesnest.Domain.Codes.ModerationState.{as_code}
use bikesnest.Domain.Codes.PricingUnit.{as_code as unit_code}
use bikesnest.Domain.Hours.{IsoDay, TimeRange, OpeningHours, unknown_hours, weekly, all_day}
use bikesnest.Domain.Parking.{
  Cost, free, unknown_cost, paid, SecurityFeature, state_in, state_smallint, security_feature_codes,
}
use bikesnest.Domain.ParkingEdit.{TimeText}
use bikesnest.Domain.Proposal.{number_json}
use bikesnest.Listing.{Location, HourRow, SecurityRow, Tables}
use bikesnest.Listing.Rows.{update_where}

-- `cost_parts`: the four columns of a cost.
pub record CostParts : Type 0 where
  pub kind : String
  pub cents : Option ℤ
  pub currency : Option String
  pub unit : Option String

unfoldable pub cost_parts : Cost → CostParts
unfolding unit_code
cost_parts free = record { kind = "free"; cents = none; currency = none; unit = none }
cost_parts unknown_cost = record { kind = "unknown"; cents = none; currency = none; unit = none }
cost_parts (paid none) = record { kind = "paid"; cents = none; currency = none; unit = none }
cost_parts (paid (some p)) = record {
  kind = "paid";
  cents = some p.cents;
  currency = some p.currency;
  unit = some (unit_code p.unit);
}

-- `write_hours`: the rows are deleted and written anew; an all-day row has the canonical bounds.
abbrev pub stored_range : TimeRange → TimeRange
stored_range r = if r.is_all_day then all_day else r

-- A column of type `TIME` keeps microseconds.
abbrev pub whole_micros : ℕ → ℕ
whole_micros nanos = nanos / 1_000 * 1_000

abbrev pub hour_row : ℕ → IsoDay × TimeRange → HourRow
hour_row id (day, r) = record {
  location_id = id;
  day_of_week = day;
  opens_at = whole_micros (TimeRange.opens_at (stored_range r));
  closes_at = whole_micros (TimeRange.closes_at (stored_range r));
  is_all_day = r.is_all_day;
}

abbrev pub hour_rows : ℕ → OpeningHours → List HourRow
hour_rows id unknown_hours = []
hour_rows id (weekly rows) = map (hour_row id) rows

-- The key of a row, and the check on its day.
abbrev pub same_hours : HourRow → HourRow → Bool
same_hours a b =
    (a.location_id == b.location_id)
    && (a.day_of_week == b.day_of_week)
    && (a.opens_at == b.opens_at)
    && (a.closes_at == b.closes_at)

abbrev pub has_day : HourRow → Bool
has_day r = leb 1 r.day_of_week && leb r.day_of_week 7

-- `INSERT INTO opening_hours`, row by row: a bad day or a key that is there fails it.
unfoldable pub insert_hours : List HourRow → List HourRow → Result DbFailure (List HourRow)
insert_hours [] rows = ok rows
insert_hours (r ∷ rest) rows =
    let later = insert_hours rest (rows ++ (r ∷ [])) in
    if not (has_day r)
    then err (db_invalid (some "opening_hours_day_of_week_check"))
    else if any (same_hours r) rows
    then err (db_conflict (some "opening_hours_pkey"))
    else later

unfoldable pub write_hours : ℕ → OpeningHours → List HourRow → Result DbFailure (List HourRow)
unfolding all_day insert_hours
write_hours id hours rows =
    insert_hours (hour_rows id hours) (keep (λ r. not (HourRow.location_id r == id)) rows)

-- `write_security`: an upsert of each known code.
abbrev pub is_feature : ℕ → String → SecurityRow → Bool
is_feature id code r = (SecurityRow.location_id r == id) && (r.feature_code =s= code)

unfoldable pub upsert_security : ℕ → String → ℕ → List SecurityRow → List SecurityRow
unfolding update_where
upsert_security id code state rows =
    if any (is_feature id code) rows
    then update_where (is_feature id code) (λ r. record r { state = state }) rows
    else rows ++ (record { location_id = id; feature_code = code; state = state } ∷ [])

unfoldable pub write_codes :
    ℕ → List String → List SecurityFeature → List SecurityRow → List SecurityRow
unfolding upsert_security state_in state_smallint
write_codes id [] features rows = rows
write_codes id (code ∷ codes) features rows =
    write_codes id codes features
      (upsert_security id code (state_smallint (state_in features code)) rows)

unfoldable pub write_security : ℕ → List SecurityFeature → List SecurityRow → List SecurityRow
unfolding write_codes
write_security id features rows = write_codes id security_feature_codes features rows

-- `ORDER BY day_of_week, opens_at`
abbrev pub sorts_before : HourRow → HourRow → Bool
sorts_before a b =
    ltb a.day_of_week b.day_of_week
    || ((a.day_of_week == b.day_of_week) && ltb a.opens_at b.opens_at)

unfoldable pub place : HourRow → List HourRow → List HourRow
place r [] = r ∷ []
place r (s ∷ rest) =
    let later = place r rest in if sorts_before r s then r ∷ s ∷ rest else s ∷ later

unfoldable pub in_order : List HourRow → List HourRow → List HourRow
unfolding place
in_order [] sorted = sorted
in_order (r ∷ rows) sorted = in_order rows (place r sorted)

unfoldable pub priced : Option ℤ → Option String → Option String → Json
priced (some cents) (some currency) (some unit) = object (
    field "kind" (string "paid") (
      field "cents" (int cents)
        (field "currency" (string currency) (field "unit" (string unit) end))))
priced _ _ _ = object (field "kind" (string "paid") end)

-- `cost_json` of the columns
unfoldable pub columns_json : String → Option ℤ → Option String → Option String → Json
unfolding priced
columns_json kind cents currency unit =
    if kind =s= "free"
    then object (field "kind" (string "free") end)
    else if kind =s= "unknown"
    then object (field "kind" (string "unknown") end)
    else if kind =s= "paid"
    then priced cents currency unit
    else object (field "kind" (string "unknown") end)

abbrev pub text_or_null : Option String → Json
text_or_null none = null
text_or_null (some s) = string s

-- `read_security_json`; the order of its rows is the database's.
unfoldable pub security_items : List SecurityRow → Items
security_items [] = nil
security_items (r ∷ rows) =
    cons (array (cons (string r.feature_code) (cons (int (pos r.state)) nil))) (security_items rows)

module _ (times : TimeText) where
  open times use {show_time}

  unfoldable pub hour_items : List HourRow → Items
  hour_items [] = nil
  hour_items (r ∷ rows) =
      cons
        (array (
          cons (int (pos r.day_of_week)) (
            cons (string (show_time r.opens_at))
              (cons (string (show_time r.closes_at)) (cons (boolean r.is_all_day) nil)))))
        (hour_items rows)

  -- `read_hours_json`
  unfoldable pub hours_json : Tables → ℕ → Bool → Json
  unfolding hour_items in_order
  hours_json t id unknown = object (
      field "unknown" (boolean unknown) (
        field "rows"
          (array
            (hour_items (in_order (keep (λ r. HourRow.location_id r == id) t.opening_hours) [])))
          end))

  unfoldable pub snapshot_with : Tables → Location → Json
  unfolding hours_json columns_json security_items as_code
  snapshot_with t row = object (
      field "name" (string row.name) (
        field "address" (string row.address) (
          field "description" (text_or_null row.description) (
            field "type" (string row.parking_type) (
              field "cost"
                (columns_json row.cost_kind row.price_cents row.price_currency row.price_unit)
                (field "point"
                  (object
                    (field "lat" (number_json row.lat) (field "lon" (number_json row.lon) end)))
                  (field "timezone" (string row.timezone) (
                    field "hours" (hours_json t row.id row.hours_unknown) (
                      field "security"
                        (array (
                          security_items
                            (keep (λ r. SecurityRow.location_id r == row.id) t.security)))
                        (field "moderation_state" (string (as_code row.moderation_state))
                          end))))))))))
