-- ===== src/Domain/Codes/PricingUnit.antt =====
-- `PricingUnit`: the units of a price, and its codes (crates/domain/src/parking.rs).
use bikesnest.Prelude.{
  String, ◌+++◌, Result, ok, err, ◌≡◌, refl, arith, eq_iff, ◌=s=◌, if◌then◌else◌,
}
use bikesnest.Domain.Error.{DomainError, invalid}

pub data PricingUnit : Type 0 where
  hour day month entry : PricingUnit

unfoldable pub as_code : PricingUnit → String
as_code hour = "hour"
as_code day = "day"
as_code month = "month"
as_code entry = "entry"

unfoldable pub from_code : String → Result DomainError PricingUnit
from_code code =
    if code =s= "hour"
    then ok hour
    else if code =s= "day"
    then ok day
    else if code =s= "month"
    then ok month
    else if code =s= "entry"
    then ok entry
    else err (invalid ("unknown pricing unit: " +++ code))

pub as_code-of_from_code :
    (code : String) (s : PricingUnit) → from_code code ≡ ok s → as_code s ≡ code
unfolding as_code from_code
as_code-of_from_code code hour h =
    ground (arith, eq_iff code "hour", eq_iff code "day", eq_iff code "month", eq_iff code "entry")
as_code-of_from_code code day h =
    ground (arith, eq_iff code "hour", eq_iff code "day", eq_iff code "month", eq_iff code "entry")
as_code-of_from_code code month h =
    ground (arith, eq_iff code "hour", eq_iff code "day", eq_iff code "month", eq_iff code "entry")
as_code-of_from_code code entry h =
    ground (arith, eq_iff code "hour", eq_iff code "day", eq_iff code "month", eq_iff code "entry")

pub from_code-as_code : (s : PricingUnit) → from_code (as_code s) ≡ ok s
unfolding as_code from_code
from_code-as_code hour = refl
from_code-as_code day = refl
from_code-as_code month = refl
from_code-as_code entry = refl
