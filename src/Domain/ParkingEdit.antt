-- ===== src/Domain/ParkingEdit.antt =====
-- `ParkingEdit`, the whole new text of a listing, and its JSON (crates/domain/src/parking_edit.rs).
-- `NaiveTime`'s text and its parser are the chrono library's: `TimeText`.
pub mod Read
pub mod RoundTrip
pub mod Tests
use bikesnest.Prelude.{
  ℕ, zero, suc, ◌^◌, ◌<◌, ◌≡◌, String, Bool, true, false, ◌&&◌, ◌||◌, not, Option, none, some, List,
  [], ◌∷◌, ◌++◌, Result, ok, err, any, leb, ltb, ◌==◌, ◌=s=◌, if◌then◌else◌, is_empty, char_count,
  trim,
}
use bikesnest.Prelude.Int.{ℤ, pos, negsuc}
use bikesnest.Json.{
  Json, Items, null, boolean, int, string, array, object, nil, cons, field, end, get, as_str,
  as_bool, as_i64, and_then,
}
use bikesnest.Domain.Codes.ParkingType.{
  ParkingType, as_code as type_code, from_code as type_from_code,
}
use bikesnest.Domain.Codes.PricingUnit.{
  PricingUnit, as_code as unit_code, from_code as unit_from_code,
}
use bikesnest.Domain.Hours.{
  NaiveTime, TimeRange, OpeningHours, unknown_hours, weekly, is_unknown, nanos_per_day, IsoDay,
}
use bikesnest.Domain.Parking.{
  Money, Cost, free, unknown_cost, paid, kind_code, from_kind_and_price, parse_currency,
  SecurityState, unknown_security, yes, no, state_smallint, SecurityFeature, state_in,
  security_feature_codes, is_known_security_code,
}

-- `NaiveTime::to_string` and `str::parse::<NaiveTime>`; what is printed is read back.
pub record TimeText : Type 0 where
  pub show_time : NaiveTime → String
  pub parse_time : String → Option NaiveTime
  pub parse_show : (t : NaiveTime) → t < nanos_per_day → parse_time (show_time t) ≡ some t

pub record ParkingEdit : Type 0 where
  pub name : String
  pub address : String
  pub description : Option String
  pub parking_type : ParkingType
  pub cost : Cost
  pub hours : OpeningHours
  pub security : List SecurityFeature

unfoldable pub money_json : Option Money → Json
unfolding unit_code
money_json none = object (field "kind" (string "paid") end)
money_json (some p) = object (
    field "kind" (string "paid") (
      field "cents" (int p.cents)
        (field "currency" (string p.currency) (field "unit" (string (unit_code p.unit)) end))))

unfoldable pub cost_json : Cost → Json
unfolding money_json kind_code
cost_json (paid price) = money_json price
cost_json other = object (field "kind" (string (kind_code other)) end)

-- The features that the loop of `to_json` writes.
unfoldable pub completed : List String → List SecurityFeature → List SecurityFeature
unfolding state_in
completed [] features = []
completed (code ∷ codes) features =
    record { code = code; state = state_in features code } ∷ completed codes features

abbrev pub hours_rows : OpeningHours → List (IsoDay × TimeRange)
hours_rows unknown_hours = []
hours_rows (weekly rows) = rows

abbrev pub feature_json : String → SecurityState → Json
feature_json code state = array (cons (string code) (cons (int (pos (state_smallint state))) nil))

unfoldable pub security_json : List String → List SecurityFeature → Items
unfolding state_in state_smallint
security_json [] features = nil
security_json (code ∷ codes) features =
    cons (feature_json code (state_in features code)) (security_json codes features)

abbrev pub description_json : Option String → Json
description_json none = null
description_json (some s) = string s

module _ (times : TimeText) where
  open times use {show_time, parse_time}

  abbrev pub row_json : IsoDay × TimeRange → Json
  row_json (day, r) = array (
      cons (int (pos day)) (
        cons (string (show_time r.opens_at))
          (cons (string (show_time r.closes_at)) (cons (boolean r.is_all_day) nil))))

  unfoldable pub rows_json : List (IsoDay × TimeRange) → Items
  rows_json [] = nil
  rows_json (row ∷ rest) = cons (row_json row) (rows_json rest)

  unfoldable pub edit_to_json : ParkingEdit → Json
  unfolding cost_json rows_json security_json type_code is_unknown
  edit_to_json e = object (
      field "name" (string (trim e.name)) (
        field "address" (string (trim e.address)) (
          field "description" (description_json e.description) (
            field "type" (string (type_code e.parking_type)) (
              field "cost" (cost_json e.cost) (
                field "hours"
                  (object (
                    field "unknown" (boolean (is_unknown e.hours))
                      (field "rows" (array (rows_json (hours_rows e.hours))) end)))
                  (field "security" (array (security_json security_feature_codes e.security))
                    end)))))))
