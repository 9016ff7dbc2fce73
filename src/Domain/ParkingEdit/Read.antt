-- ===== src/Domain/ParkingEdit/Read.antt =====
-- Reading an edit from its JSON: what is not a whole, valid edit gives none
-- (crates/domain/src/parking_edit.rs).
use bikesnest.Prelude.{
  ℕ, zero, suc, ◌^◌, String, Bool, true, false, ◌&&◌, ◌||◌, not, Option, none, some, List, [], ◌∷◌,
  ◌++◌, Result, ok, err, any, leb, ltb, ◌=s=◌, if◌then◌else◌, is_empty, char_count, trim,
}
use bikesnest.Prelude.Int.{ℤ, pos, negsuc}
use bikesnest.Json.{
  Json, Items, null, int, string, array, nil, cons, get, as_str, as_bool, as_i64, and_then,
}
use bikesnest.Domain.Codes.ParkingType.{from_code as type_from_code}
use bikesnest.Domain.Codes.PricingUnit.{from_code as unit_from_code}
use bikesnest.Domain.Hours.{TimeRange, OpeningHours, unknown_hours, weekly, IsoDay}
use bikesnest.Domain.Parking.{
  Money, Cost, from_kind_and_price, parse_currency, SecurityState, unknown_security, yes, no,
  SecurityFeature, is_known_security_code,
}
use bikesnest.Domain.ParkingEdit.{TimeText, ParkingEdit}

-- `r.ok()`
abbrev pub to_option : {E A : Type 0} → Result E A → Option A
to_option (ok a) = some a
to_option (err e) = none

abbrev pub is_natural : ℤ → Bool
is_natural (pos n) = true
is_natural (negsuc n) = false

abbrev pub when : Bool → Option (Unit {0})
when true = some tt
when false = none

infixl 5 ◌>>=◌ ◌>>◌
unfoldable pub ◌>>=◌ : {A B : Type 0} → Option A → (A → Option B) → Option B
none >>= f = none
some a >>= f = f a

abbrev pub ◌>>◌ : {B : Type 0} → Option (Unit {0}) → Option B → Option B
m >> k = m >>= λ _. k

-- `from_json`: a value that is not a whole, valid edit gives none.
abbrev pub as_array : Json → Option Items
as_array (array items) = some items
as_array _ = none

-- `v.get(i)`
abbrev pub item : ℕ → Items → Option Json
item i nil = none
item zero (cons v rest) = some v
item (suc i) (cons v rest) = item i rest

abbrev pub at : ℕ → Json → Option Json
at i v = and_then (as_array v) (item i)

-- `v.as_u64()`
abbrev pub as_u64 : Json → Option ℕ
as_u64 (int (pos n)) = if ltb n (2 ^ 64) then some n else none
as_u64 _ = none

unfoldable pub read_text : String → ℕ → Json → Option String
unfolding ◌>>=◌
read_text key limit raw = do
  v ← get key raw
  s ← as_str v
  when (not (is_empty (trim s) || ltb limit (char_count (trim s))))
  some (trim s)

unfoldable pub read_description : Json → Option (Option String)
read_description null = some none
read_description (string s) = if leb (char_count s) 5000 then some (some s) else none
read_description _ = none

unfoldable pub read_amount : Json → Json → Option Money
unfolding ◌>>=◌ unit_from_code parse_currency
read_amount c v = do
  cents ← as_i64 v
  when (is_natural cents)
  currency_value ← get "currency" c
  currency_text ← as_str currency_value
  currency ← to_option (parse_currency currency_text)
  unit_value ← get "unit" c
  unit_text ← as_str unit_value
  unit ← to_option (unit_from_code unit_text)
  some record { cents = cents; currency = currency; unit = unit }

abbrev pub amount_of : Option Money → Option (Option Money)
amount_of none = none
amount_of (some m) = some (some m)

unfoldable pub read_price : Json → Option Json → Option (Option Money)
unfolding read_amount
read_price c none = some none
read_price c (some null) = some none
read_price c (some v) = amount_of (read_amount c v)

unfoldable pub read_cost : Json → Option Cost
unfolding ◌>>=◌ read_price from_kind_and_price
read_cost c = do
  price ← read_price c (get "cents" c)
  kind_value ← get "kind" c
  kind ← as_str kind_value
  to_option (from_kind_and_price kind price)

abbrev pub has_rows : List (IsoDay × TimeRange) → Bool
has_rows [] = false
has_rows (row ∷ rows) = true

-- `i16::try_from` and `SecurityState::from_smallint`
unfoldable pub state_of_number : ℤ → Option SecurityState
state_of_number (pos zero) = some unknown_security
state_of_number (pos (suc zero)) = some yes
state_of_number (pos (suc (suc zero))) = some no
state_of_number _ = none

abbrev pub has_code : String → List SecurityFeature → Bool
has_code code features = any (λ f. SecurityFeature.code f =s= code) features

unfoldable pub read_feature : List SecurityFeature → Json → Option SecurityFeature
unfolding ◌>>=◌ state_of_number is_known_security_code
read_feature seen row = do
  code_value ← at 0 row
  code ← as_str code_value
  when (is_known_security_code code && not (has_code code seen))
  state_value ← at 1 row
  number ← as_i64 state_value
  state ← state_of_number number
  some record { code = code; state = state }

-- The loop over the features, with those that were read so far.
unfoldable pub read_features : List SecurityFeature → Items → Option (List SecurityFeature)
unfolding ◌>>=◌ read_feature
read_features seen nil = some seen
read_features seen (cons v items) =
    read_feature seen v >>= λ f. read_features (seen ++ (f ∷ [])) items

module _ (times : TimeText) where
  open times use {parse_time}

  unfoldable pub read_row : Json → Option (IsoDay × TimeRange)
  unfolding ◌>>=◌
  read_row row = do
    day_value ← at 0 row
    day ← as_u64 day_value
    when (leb 1 day && leb day 7)
    opens_value ← at 1 row
    opens_text ← as_str opens_value
    opens ← parse_time opens_text
    closes_value ← at 2 row
    closes_text ← as_str closes_value
    closes ← parse_time closes_text
    all_day_value ← at 3 row
    is_all_day ← as_bool all_day_value
    some (day, record { opens_at = opens; closes_at = closes; is_all_day = is_all_day })

  unfoldable pub read_rows : Items → Option (List (IsoDay × TimeRange))
  unfolding ◌>>=◌ read_row
  read_rows nil = some []
  read_rows (cons v items) =
      let rest = read_rows items in do row ← read_row v; rows ← rest; some (row ∷ rows)

  unfoldable pub read_hours : Json → Option OpeningHours
  unfolding ◌>>=◌ read_rows
  read_hours h = do
    unknown_value ← get "unknown" h
    unknown ← as_bool unknown_value
    rows_value ← get "rows" h
    items ← as_array rows_value
    rows ← read_rows items
    when (not (unknown && has_rows rows))
    some (if unknown then unknown_hours else weekly rows)

  unfoldable pub edit_from_json : Json → Option ParkingEdit
  unfolding ◌>>=◌ read_text read_description read_cost read_hours read_features type_from_code
  edit_from_json raw = do
    name ← read_text "name" 200 raw
    address ← read_text "address" 500 raw
    description_value ← get "description" raw
    description ← read_description description_value
    cost_value ← get "cost" raw
    cost ← read_cost cost_value
    hours_value ← get "hours" raw
    hours ← read_hours hours_value
    security_value ← get "security" raw
    security_items ← as_array security_value
    security ← read_features [] security_items
    type_value ← get "type" raw
    type_text ← as_str type_value
    parking_type ← to_option (type_from_code type_text)
    some record {
      name = name;
      address = address;
      description = description;
      parking_type = parking_type;
      cost = cost;
      hours = hours;
      security = security;
    }
