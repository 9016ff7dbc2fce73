-- ===== src/Domain/ParkingEdit/Tests.antt =====
-- Runs of the edits' JSON, with a clock text of hours only.
use bikesnest.Prelude.{
  ℕ, zero, suc, ◌≡◌, refl, ap, ok, String, false, none, some, [], ◌∷◌, trim, char_count, arith,
}
use bikesnest.Prelude.Int.{pos, negsuc}
use bikesnest.Json.{array, cons, nil, int, string, field, object, end}
use bikesnest.Domain.Codes.ParkingType.{rack}
use bikesnest.Domain.Codes.PricingUnit.{hour}
use bikesnest.Domain.Hours.{weekly}
use bikesnest.Domain.Parking.{paid, security_feature_codes, yes, parse_currency}
use bikesnest.Domain.ParkingEdit.{TimeText, ParkingEdit, edit_to_json, completed}
use bikesnest.Domain.ParkingEdit.Read.{edit_from_json, read_cost, read_features}
use bikesnest.Domain.ParkingEdit.RoundTrip.{edit_from_json-edit_to_json}

-- A clock text in tally marks.
unfoldable pub tally : ℕ → String
tally zero = ""
tally (suc n) = String.◌∷◌ "x" (tally n)

pub char_count-tally : (n : ℕ) → char_count (tally n) ≡ n
unfolding tally
char_count-tally zero = refl
char_count-tally (suc n) = ap suc (char_count-tally n)

abbrev pub tallies : TimeText
tallies = record {
  show_time = tally;
  parse_time = λ s. some (char_count s);
  parse_show = λ t lt. ap some (char_count-tally t);
}

abbrev pub edit : ParkingEdit
edit = record {
  name = " Rack ";
  address = "Street 1";
  description = none;
  parking_type = rack;
  cost = paid (some record { cents = pos 250; currency = "BRL"; unit = hour });
  hours = weekly ((1, record { opens_at = 3; closes_at = 5; is_all_day = false }) ∷ []);
  security = record { code = "cctv"; state = yes } ∷ [];
}

currency_reads : parse_currency " brl " ≡ ok "BRL"
unfolding parse_currency trim
currency_reads = refl

-- A negative price, and a feature that is given twice, are refused.
negative_price :
    read_cost (
      object (
        field "kind" (string "paid") (
          field "cents"
            (int (negsuc 0))
            (field "currency" (string "BRL") (field "unit" (string "hour") end)))))
    ≡ none
unfolding read_cost
negative_price = refl

given_twice :
    read_features [] (
      cons
        (array (cons (string "cctv") (cons (int (pos 1)) nil)))
        (cons (array (cons (string "cctv") (cons (int (pos 2)) nil))) nil))
    ≡ none
unfolding read_features
given_twice = refl

edit_from_json-edit_to_json_example :
    edit_from_json tallies (edit_to_json tallies edit)
    ≡ some
        (record edit { name = "Rack"; security = completed security_feature_codes edit.security })
unfolding trim parse_currency
edit_from_json-edit_to_json_example = edit_from_json-edit_to_json tallies edit record {
  name = (refl, refl);
  address = (refl, refl);
  description = tt;
  cost = ((250, refl, refl), refl);
  hours = ((refl, omega arith, omega arith), tt);
}
