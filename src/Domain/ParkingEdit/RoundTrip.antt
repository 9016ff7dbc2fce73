-- ===== src/Domain/ParkingEdit/RoundTrip.antt =====
-- An edit survives its JSON (crates/domain/src/parking_edit.rs).
use mathlib.Core.List.{append_assoc, append-nil}
use bikesnest.Prelude.{
  ℕ, ◌<◌, ◌≡◌, refl, ap, sym, String, Bool, true, false, ◌&&◌, not, Option, none, some, List, [],
  ◌∷◌, ◌++◌, All, arith, leb, is_empty, char_count, trim, trim-trim, ok, ◌^◌, ltb,
}
use bikesnest.Prelude.Int.{pos}
use bikesnest.Json.{Json, get, array, string, int, object, field, end, boolean}
use bikesnest.Domain.Codes.PricingUnit.{as_code, from_code-as_code}
use bikesnest.Domain.Codes.ParkingType.{from_code-as_code as type_read}
use bikesnest.Domain.Hours.{
  TimeRange, OpeningHours, unknown_hours, weekly, nanos_per_day, IsoDay, is_unknown,
}
use bikesnest.Domain.Parking.{
  Money, Cost, free, unknown_cost, paid, parse_currency, SecurityState, SecurityFeature, kind_code,
  from_kind_and_price, unknown_security, yes, no, state_smallint, security_feature_codes,
  is_known_security_code, state_in,
}
use bikesnest.Domain.ParkingEdit.{
  TimeText, ParkingEdit, cost_json, money_json, rows_json, row_json, edit_to_json, completed,
  security_json, feature_json, description_json, hours_rows,
}
use bikesnest.Domain.ParkingEdit.Read.{
  read_cost, read_price, read_amount, read_rows, read_row, edit_from_json, ◌>>=◌, read_text,
  has_code, read_features, read_feature, state_of_number, read_description, read_hours,
}

abbrev pub to_list : {A : Type 0} → Option A → List A
to_list none = []
to_list (some a) = a ∷ []

-- A text that is not blank and within its limit.
abbrev pub IsText : ℕ → String → Type 0
IsText limit s = (is_empty (trim s) ≡ false) × (ltb limit (char_count (trim s)) ≡ false)

read_text-trim :
    (key : String) (limit : ℕ) (s : String) (raw : Json)
    → get key raw ≡ some (string (trim s))
    → IsText limit s
    → read_text key limit raw ≡ some (trim s)
unfolding read_text ◌>>=◌
read_text-trim key limit s raw e h = rw (e, trim-trim s, h.0, h.1) refl

-- A price in minor units that an `i64` holds, in a currency that reads back as itself.
abbrev pub IsPrice : Money → Type 0
IsPrice m =
    ((n : ℕ) × (m.cents ≡ pos n) × (ltb n (2 ^ 63) ≡ true))
    × (parse_currency m.currency ≡ ok m.currency)

abbrev pub IsCost : Cost → Type 0
IsCost (paid (some m)) = IsPrice m
IsCost _ = Unit

read_amount-price :
    (c : Json) (m : Money)
    → IsPrice m
    → get "currency" c ≡ some (string m.currency)
    → get "unit" c ≡ some (string (as_code m.unit))
    → read_amount c (int m.cents) ≡ some m
unfolding read_amount ◌>>=◌
read_amount-price c m ((n, e, fits), text) g h =
    rw (e, fits, g, text, h, from_code-as_code m.unit, ← e) refl

read_cost-cost_json : (c : Cost) → IsCost c → read_cost (cost_json c) ≡ some c
unfolding read_cost cost_json money_json kind_code read_price ◌>>=◌ from_kind_and_price
read_cost-cost_json free h = refl
read_cost-cost_json unknown_cost h = refl
read_cost-cost_json (paid none) h = refl
read_cost-cost_json (paid (some m)) h = rw (read_amount-price _ m h refl refl) refl

read_description-json :
    (d : Option String)
    → All (λ s. leb (char_count s) 5000 ≡ true) (to_list d)
    → read_description (description_json d) ≡ some d
unfolding read_description
read_description-json none h = refl
read_description-json (some s) h = rw h.0 refl

-- The known codes, each once.
abbrev are_fresh : List SecurityFeature → List String → List SecurityFeature → Bool
are_fresh seen [] features = true
are_fresh seen (code ∷ codes) features =
    is_known_security_code code
    && not (has_code code seen)
    && are_fresh (seen ++ (record { code = code; state = state_in features code } ∷ [])) codes
        features

state_of_number-smallint : (s : SecurityState) → state_of_number (pos (state_smallint s)) ≡ some s
unfolding state_of_number state_smallint
state_of_number-smallint unknown_security = refl
state_of_number-smallint yes = refl
state_of_number-smallint no = refl

small : (s : SecurityState) → ltb (state_smallint s) (2 ^ 63) ≡ true
unfolding state_smallint
small unknown_security = refl
small yes = refl
small no = refl

read_feature-feature_json :
    (seen : List SecurityFeature) (code : String) (state : SecurityState)
    → is_known_security_code code && not (has_code code seen) ≡ true
    → read_feature seen (feature_json code state) ≡ some record { code = code; state = state }
unfolding read_feature ◌>>=◌
read_feature-feature_json seen code state h =
    rw (h, small state, state_of_number-smallint state) refl

both : (a b : Bool) → a && b ≡ true → (a ≡ true) × (b ≡ true)
both true b h = (refl, h)
both false b h = cc

read_features-security_json :
    (codes : List String) (seen : List SecurityFeature) (features : List SecurityFeature)
    → are_fresh seen codes features ≡ true
    → read_features seen (security_json codes features) ≡ some (seen ++ completed codes features)
unfolding read_features security_json completed ◌>>=◌
read_features-security_json [] seen features h = ap some (sym (append-nil seen))
read_features-security_json (code ∷ codes) seen features h =
    let (fresh, rest) = both _ _ h in
    rw
      (
        read_feature-feature_json seen code (state_in features code) fresh,
        read_features-security_json codes
            (seen ++ (record { code = code; state = state_in features code } ∷ [])) features rest,
      )
      (ap some (append_assoc seen _ _))

small_day : (day : ℕ) → leb 1 day && leb day 7 ≡ true → ltb day (2 ^ 64) ≡ true
small_day day h = ground arith

module _ (times : TimeText) where
  open times use {parse_show}

  abbrev pub IsRow : IsoDay × TimeRange → Type 0
  IsRow (day, r) =
      (leb 1 day && leb day 7 ≡ true) × (r.opens_at < nanos_per_day) × (r.closes_at < nanos_per_day)

  read_row-row_json :
      (row : IsoDay × TimeRange) → IsRow row → read_row times (row_json times row) ≡ some row
  unfolding read_row ◌>>=◌
  read_row-row_json (day, r) h =
      rw (small_day day h.0, h.0, parse_show r.opens_at h.1, parse_show r.closes_at h.2) refl

  read_rows-rows_json :
      (rows : List (IsoDay × TimeRange))
      → All IsRow rows
      → read_rows times (rows_json times rows) ≡ some rows
  unfolding read_rows rows_json ◌>>=◌
  read_rows-rows_json [] h = refl
  read_rows-rows_json (row ∷ rows) h =
      rw (read_row-row_json row h.0, read_rows-rows_json rows h.1) refl

  read_hours-json :
      (h : OpeningHours)
      → All IsRow (hours_rows h)
      → read_hours times (
          object (
            field "unknown"
              (boolean (is_unknown h))
              (field "rows" (array (rows_json times (hours_rows h))) end)))
        ≡ some h
  unfolding read_hours is_unknown ◌>>=◌
  read_hours-json unknown_hours ok_rows = rw (read_rows-rows_json [] tt) refl
  read_hours-json (weekly rows) ok_rows = rw (read_rows-rows_json rows ok_rows) refl

  -- An edit that the form accepts: a name and an address that are not blank and within their limits,
  -- a description within its limit, a price that an `i64` holds, and days and times that exist.
  pub record IsWhole (e : ParkingEdit) : Type 0 where
    pub name : IsText 200 e.name
    pub address : IsText 500 e.address
    pub description : All (λ s. leb (char_count s) 5000 ≡ true) (to_list e.description)
    pub cost : IsCost e.cost
    pub hours : All IsRow (hours_rows e.hours)

  -- A whole edit reads back from its JSON as it was, with its name and its address trimmed and its
  -- security attributes as the eight known codes, each in the state that the edit gives it, and a code
  -- that the edit does not name in the state unknown.
  pub edit_from_json-edit_to_json :
      (e : ParkingEdit)
      → IsWhole e
      → edit_from_json times (edit_to_json times e)
        ≡ some (record e {
          name = trim e.name;
          address = trim e.address;
          security = completed security_feature_codes e.security;
        })
  unfolding edit_from_json edit_to_json ◌>>=◌
  edit_from_json-edit_to_json e w =
      rw
        (
          read_text-trim "name" 200 e.name _ refl w.name,
          read_text-trim "address" 500 e.address _ refl w.address,
          read_description-json e.description w.description,
          read_cost-cost_json e.cost w.cost,
          read_hours-json e.hours w.hours,
          read_features-security_json security_feature_codes [] e.security refl,
          type_read e.parking_type,
        )
        refl
