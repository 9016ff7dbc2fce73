-- ===== src/Domain/Parking.antt =====
-- Prices and security attributes of a location (crates/domain/src/parking.rs).
use Prim.Native.Char.{Char, code}
use Prim.Native.String.{len, char_at}
use bikesnest.Prelude.{
  ℕ, ◌-◌, String, ◌+++◌, Bool, true, ◌&&◌, ◌||◌, Option, List, [], ◌∷◌, Result, ok, err, any, leb,
  ◌==◌, ◌=s=◌, if◌then◌else◌, trim,
}
use bikesnest.Prelude.Int.{ℤ}
use bikesnest.Domain.Error.{DomainError, invalid}
use bikesnest.Domain.Codes.PricingUnit.{PricingUnit}

abbrev pub is_ascii_alphabetic : Char → Bool
is_ascii_alphabetic c = let n = code c in (leb 65 n && leb n 90) || (leb 97 n && leb n 122)

abbrev pub upper_char : Char → Char
upper_char c =
    let n = code c in
    if leb 97 n && leb n 122 then char_at "ABCDEFGHIJKLMNOPQRSTUVWXYZ" (n - 97) else c

-- `s.to_ascii_uppercase()`
unfoldable pub to_ascii_uppercase : String → String
to_ascii_uppercase String.[] = String.[]
to_ascii_uppercase (String.◌∷◌ c s) = String.◌∷◌ (upper_char c) (to_ascii_uppercase s)

abbrev pub all_alphabetic : String → Bool
all_alphabetic String.[] = true
all_alphabetic (String.◌∷◌ c s) = is_ascii_alphabetic c && all_alphabetic s

-- The text of a `CurrencyCode`.
unfoldable pub parse_currency : String → Result DomainError String
unfolding to_ascii_uppercase
parse_currency raw =
    let upper = to_ascii_uppercase (trim raw) in
    if (len upper == 3) && all_alphabetic upper
    then ok upper
    else err (invalid ("invalid currency code: " +++ upper))

pub record Money : Type 0 where
  pub cents : ℤ
  pub currency : String
  pub unit : PricingUnit

pub data Cost : Type 0 where
  free unknown_cost : Cost
  paid : Option Money → Cost

unfoldable pub kind_code : Cost → String
kind_code free = "free"
kind_code (paid price) = "paid"
kind_code unknown_cost = "unknown"

unfoldable pub from_kind_and_price : String → Option Money → Result DomainError Cost
from_kind_and_price kind price =
    if kind =s= "free"
    then ok free
    else if kind =s= "paid"
    then ok (paid price)
    else if kind =s= "unknown"
    then ok unknown_cost
    else err (invalid ("unknown cost kind: " +++ kind))

pub data SecurityState : Type 0 where
  unknown_security yes no : SecurityState

-- The number that is stored for a state, and back.
unfoldable pub state_smallint : SecurityState → ℕ
state_smallint unknown_security = 0
state_smallint yes = 1
state_smallint no = 2

abbrev pub security_feature_codes : List String
security_feature_codes =
    "dedicated_locking_point" ∷ "indoor" ∷ "cctv" ∷ "staffed" ∷ "security_guard"
    ∷ "controlled_access" ∷ "well_lit" ∷ "restricted_access" ∷ []

unfoldable pub is_known_security_code : String → Bool
is_known_security_code code = any (λ c. c =s= code) security_feature_codes

pub record SecurityFeature : Type 0 where
  pub code : String
  pub state : SecurityState

-- The state that a list of features gives a code: that of the first feature of the code.
unfoldable pub state_in : List SecurityFeature → String → SecurityState
state_in [] code = unknown_security
state_in (f ∷ rest) code =
    let later = state_in rest code in if SecurityFeature.code f =s= code then f.state else later
